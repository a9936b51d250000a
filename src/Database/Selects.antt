-- ===== src/Database/Selects.antt =====
-- Computations over the state that only read it: the queries, where SQLite keeps its promise that a
-- SELECT does not write.
use Prim.Native.String.{String}
use file_share_server.Common.{
  ℕ, ◌≡◌, refl, ◌∙◌, Bool, true, false, Option, none, some, List, [], ◌∷◌, ◌==◌, ◌&&◌, ℤ, Outcome,
  done, fault, exited,
}
use file_share_server.Base64.{codes}
use file_share_server.Database.{
  Text, Row, Run, System, Pool, step_loop, exec, step_run, on_pool, with_pool, get_pool,
}
use file_share_server.Database.Handlers.{Handler, return, lift, next, ◌>>=◌}

abbrev starts_with : Text → Text → Bool
starts_with [] text = true
starts_with (a ∷ rest) [] = false
starts_with (a ∷ rest) (b ∷ text) = (a == b) && starts_with rest text

abbrev pub is_select : String → Bool
is_select sql = starts_with (codes "SELECT ") (codes sql)

-- A SELECT does not write to the database.
pub record KeepsSelects {W : Type 0} (system : System W) : Type 0 where
  pub select_keeps :
      (w : W) (sql : String) (values : List (Option Text)) (run : Run W)
      → is_select sql ≡ true
      → system.prepare w sql values ≡ some run
      → run.after ≡ w

-- Where the computation returns, the state is the one it was given.
pub record IsReading {W A : Type 0} (m : Handler W A) : Type 0 where
  pub keeps : (w : W) (a : A) (w' : W) → m w ≡ done (a, w') → w' ≡ w

module _ {W : Type 0} where
  pub next-eq-done :
      {A B : Type 0} (m : Outcome (A × W)) (f : A → W → Outcome (B × W)) {b : B} {w' : W}
      → next m f ≡ done (b, w')
      → (a : A) × (w1 : W) × (m ≡ done (a, w1)) × (f a w1 ≡ done (b, w'))
  next-eq-done (done (a, w1)) f h = (a, w1, refl, h)
  next-eq-done fault f h = cc
  next-eq-done exited f h = cc

  pub return-IsReading : {A : Type 0} (a : A) → IsReading (λ (w : W). return a w)
  return-IsReading a = record { keeps = λ w b w' h. cc }

  pub lift-IsReading : {A : Type 0} (a : Outcome A) → IsReading (λ (w : W). lift a w)
  lift-IsReading (done a) = record { keeps = λ w b w' h. cc }
  lift-IsReading fault = record { keeps = λ w b w' h. cc }
  lift-IsReading exited = record { keeps = λ w b w' h. cc }

  pub bind-IsReading :
      {A B : Type 0} (m : Handler W A) (f : A → Handler W B)
      → IsReading m
      → ((a : A) → IsReading (f a))
      → IsReading (m >>= f)
  bind-IsReading m f hm hf = record {
    keeps = λ w b w' h.
        let (a, w1, e, k) = next-eq-done (m w) f h in (hf a).keeps w1 b w' k ∙ hm.keeps w a w1 e;
  }

module _ {W : Type 0} (system : System W) where
  on_pool-IsReading :
      {A : Type 0} (pool : Outcome (Option Pool)) (failed : A) (body : Handler W A)
      → IsReading body
      → IsReading (on_pool system pool failed body)
  on_pool-IsReading (done (some pool)) failed body h = h
  on_pool-IsReading (done none) failed body h = return-IsReading failed
  on_pool-IsReading fault failed body h = record { keeps = λ w a w' e. cc }
  on_pool-IsReading exited failed body h = record { keeps = λ w a w' e. cc }

  pub with_pool-IsReading :
      {A : Type 0} (failed : A) (body : Handler W A)
      → IsReading body
      → IsReading (with_pool system failed body)
  unfolding with_pool
  with_pool-IsReading failed body h =
      on_pool-IsReading (get_pool system.strcmp system.pools none) failed body h

  step_loop-IsReading :
      {A : Type 0} (callback : Row → A → Handler W A) (rows : List Row) (code : ℕ) (arg : A)
      → ((row : Row) (arg : A) → IsReading (callback row arg))
      → IsReading (step_loop system (some callback) rows code arg)
  unfolding step_loop
  step_loop-IsReading callback [] code arg h = record { keeps = λ w a w' e. cc }
  step_loop-IsReading callback (row ∷ rows) code arg h =
      bind-IsReading (callback row arg) (step_loop system (some callback) rows code) (h row arg)
        (λ b. step_loop-IsReading callback rows code b h)

  step_run-keeps :
      {A : Type 0} (keeper : KeepsSelects system) (callback : Row → A → Handler W A) (arg : A)
      (sql : String) (values : List (Option Text)) (run : Option (Run W)) (w : W) (result : ℤ × A)
      (w' : W)
      → is_select sql ≡ true
      → ((row : Row) (arg : A) → IsReading (callback row arg))
      → system.prepare w sql values ≡ run
      → step_run system (some callback) arg run w ≡ done (result, w')
      → w' ≡ w
  step_run-keeps keeper callback arg sql values none w result w' s h p e = cc
  step_run-keeps keeper callback arg sql values (some run) w result w' s h p e =
      (step_loop-IsReading callback run.rows run.code arg h).keeps run.after result w' e
      ∙ keeper.select_keeps w sql values run s p

  -- A SELECT with a callback that only reads.
  pub exec-IsReading :
      {A : Type 0} (keeper : KeepsSelects system) (callback : Row → A → Handler W A) (arg : A)
      (sql : String) (values : List (Option Text))
      → is_select sql ≡ true
      → ((row : Row) (arg : A) → IsReading (callback row arg))
      → IsReading (exec system (some callback) arg sql values)
  unfolding exec
  exec-IsReading keeper callback arg sql values s h = record {
    keeps = λ w result w' e.
        step_run-keeps keeper callback arg sql values (system.prepare w sql values) w result w' s h
          refl e;
  }
