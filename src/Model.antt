-- ===== src/Model.antt =====
-- src/model/user.c, session.c and group.c, and the functions of src/utils/helper.c they use. A
-- pointer that may be NULL is an Option; one that is not initialised is none too, and reading it
-- is a fault.
pub mod Support
pub mod User
pub mod Session
pub mod Group
pub mod Directory
pub mod File
pub mod Nodes
pub mod Queries
pub mod Reads
