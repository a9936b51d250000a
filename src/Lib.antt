-- ===== src/Lib.antt =====
-- The file share server: a web server over SQLite for users, groups and their files, a TFTP server
-- that moves the files, and the containers that both stand on.
--
-- Which file models which part, with paths from the repository's root:
--   LinkedList: src/data_structures/lists/linked_list.c. A list is the chain of its data and the
--     cached length, which may differ; an index is an `int`.
--   Queue: src/data_structures/lists/queue.c, over LinkedList.
--   Tree: src/data_structures/trees/binary_search_tree.c, for any comparison; Comparator has the
--     laws that are asked of one, Tree/Comparisons the comparisons of that file but for float.
--   Dictionary: src/data_structures/dictionary, a Tree of entries and a LinkedList of keys.
--   Checksum: src/networking/checksum.c; Checksum/Packet has its uses in
--     src/networking/tftp/tftp_client_handle.c.
--   Base64: the base64 functions of src/http/helper/helper.c.
--   Database: src/database/db.c. `System` is what the code calls and does not define: SQLite, the C
--     library and the file system, as functions on a state `W`.
--   Model: src/model/user.c, session.c, group.c, directory.c and file.c, with the helpers of
--     src/utils/helper.c. The SQL is kept as it is written; a function that reaches the state is a
--     function of `W`. Model/Directory and Model/File have what is written in their Storage;
--     Model/Nodes has the lists of directories and files.
--   Controller: get_user_from_request and the responses of src/http/helper/helper.c, and
--     src/http/controller/user_controller.c, group_controller.c, directory_controller.c and
--     file_controller.c (Controller/Users, Groups, Members, Directories and Files). A handler takes
--     a request and a state and gives a response and a state.
--   HttpRequest: src/networking/http/http_request.c, from the text of a request to the dictionaries.
--   HttpServer: src/networking/http/http_server.c: routes, methods, resources and, in
--     HttpServer/Dispatch, http_handler from the text of a request to the response.
--     HttpServer/Registration has the routes of src/main/http.c and src/main.c.
--   ThreadPool: src/systems/thread_pool.c, the workers and their jobs as sequences of moves.
--   Tftp: src/networking/tftp, the handler of a client: Tftp/Send and Tftp/Receive have the packets
--     with their retries, Tftp/Request and Tftp/Options the request, Tftp/Transfer the blocks of a
--     download and an upload, Tftp/Client the handler from create_handler to the end, with
--     tftp_handler of tftp_server.c. `Writer` is what writes a file.
--   Common: what the others share. Tests: the theorems at concrete data.
--
-- A C function that reads through NULL, reads an uninitialised pointer or writes beyond a buffer
-- gives `fault`, one that calls `exit` gives `exited`; what else it returns is in `done`.
-- Memory is allocated without fail, and what is freed is seen only in the lists of freed data. The
-- state that a SELECT leaves behind is, by hypothesis (KeepsSelects), the one before it. Requests
-- are taken one at a time; ThreadPool has the order in which jobs begin.
--
-- A few bytes that are written or read beyond an array are no `fault` but are taken as free, so
-- that the text is as it was: the terminators that have no room at
-- src/networking/http/http_request.c:30, 77 and 104 and src/networking/http/http_server.c:110;
-- those that are not copied at http_request.c:112 and 189 and http_server.c:114 and are still
-- found; and the last two bytes of the JSON at src/http/controller/user_controller.c:49.
-- create_handler does write far beyond `__packet_buffer`
-- (src/networking/tftp/tftp_client_handle.c:67) and runs into undefined behaviour there; the
-- theorems on a client's request are on handle_client, for any handler that holds one.
--
-- The TFTP handler takes the datagrams that arrive from a list and waits behind its end; an
-- address that it reads in a dead frame and the jump buffer of a handler that it has freed are
-- taken as they were, and a number of two bytes stands in memory with its low byte first.
--
-- Fuel: the destructor of a list has one round more than its length, binary_search the length and
-- one, the checksum the number of bytes and two; the theorems on them show that these suffice.
-- remove_directory has a depth of 4096 calls, beyond which it counts as a fault. The copy of a
-- resource has one round more than there are bytes, which the theorem on it shows to be enough. The
-- parser takes each token from a text that it makes shorter, and has one round more than fields.
-- A loop of the TFTP handler that has no bound has two rounds more than there are datagrams, and is
-- `endless` beyond them; each round takes a datagram, but where a window has no blocks.
--
-- Not modelled: the logger (output only), SQLite's headers, the sockets and the start-up code of the
-- programs in main but for the routes, the end of the thread pool, the comparison of floats, and of
-- the TFTP server the sockets and the loop that waits for a client.
pub mod Common
pub mod Comparator
pub mod LinkedList
pub mod Queue
pub mod Tree
pub mod Dictionary
pub mod Checksum
pub mod Base64
pub mod Database
pub mod Model
pub mod Controller
pub mod HttpRequest
pub mod HttpServer
pub mod ThreadPool
pub mod Tftp
pub mod Tests
