-- ===== src/Crud/Updates.antt =====
-- src/crud.rs: the updates of a batch, one statement after the other.
use rbatis.Crud.Fields.{Table}
use rbatis.Crud.Session.{update_by_id, update_rows, update_batch_by_id}
use rbatis.Json.{Value}
use rbatis.LogicDelete.{RbatisLogicDeletePlugin}
use rbatis.Session.{Database, Session}
use rbatis.Session.Prepared.{Queries, and_then}
use rbatis.Prelude.{
  ℕ, ◌+◌, ◌%◌, ◌^◌, ◌≡◌, refl, sym, ◌∙◌, Option, List, [], ◌∷◌, ◌++◌, Outcome, ok, err, panic,
}
use rbatis.Text.{Str}

module _ {ℓ κ ι} {A : Type ℓ} {B : Type κ} {D : Type ι} {W : Type 0} where
  and_then_assoc :
      (m : Outcome A × W) (f : A → W → Outcome B × W) (g : B → W → Outcome D × W)
      → and_then (and_then m f) g ≡ and_then m (λ a world. and_then (f a world) g)
  unfolding and_then
  and_then_assoc (ok a, world) f g = refl
  and_then_assoc (err message, world) f g = refl
  and_then_assoc (panic, world) f g = refl

module _ {ℓ κ} {A : Type ℓ} {B : Type κ} {W : Type 0} where
  and_then-ap :
      (m : Outcome A × W) (f g : A → W → Outcome B × W)
      → ((a : A) (world : W) → f a world ≡ g a world)
      → and_then m f ≡ and_then m g
  unfolding and_then
  and_then-ap (ok a, world) f g h = h a world
  and_then-ap (err message, world) f g h = refl
  and_then-ap (panic, world) f g h = refl

module _ {C W Q N : Type 0} (db : Database C W) (queries : Queries C W Q N)
    (logic_plugin : Option RbatisLogicDeletePlugin) (table : Table) where
  update_rows-append :
      (tx_id : Str) (updates : ℕ) (first later : List (Value N)) (s : Session C W)
      → update_rows db queries logic_plugin table tx_id updates (first ++ later) s
        ≡ and_then
            (update_rows db queries logic_plugin table tx_id updates first s)
            (λ rows after. update_rows db queries logic_plugin table tx_id rows later after)
  unfolding update_rows
  update_rows-append tx_id updates [] later s = unfold and_then in refl
  update_rows-append tx_id updates (x ∷ first) later s =
      and_then-ap (update_by_id db queries logic_plugin table tx_id x s) _ _
        (λ rows after. update_rows-append tx_id ((updates + rows) % 2 ^ 64) first later after)
      ∙ sym (and_then_assoc (update_by_id db queries logic_plugin table tx_id x s) _ _)

  -- If the updates before a row end well and the row's own fails, `update_batch_by_id` returns the
  -- row's error in the session that the row leaves: the updates before it are kept, and those behind
  -- it are not run.
  pub update_batch_by_id-append :
      (tx_id message : Str) (first later : List (Value N)) (x : Value N)
      (s between after : Session C W) (n : ℕ)
      → update_batch_by_id db queries logic_plugin table tx_id first s ≡ (ok n, between)
      → update_by_id db queries logic_plugin table tx_id x between ≡ (err message, after)
      → update_batch_by_id db queries logic_plugin table tx_id (first ++ x ∷ later) s
        ≡ (err message, after)
  unfolding update_batch_by_id
  update_batch_by_id-append tx_id message first later x s between after n done failed =
      update_rows-append tx_id 0 first (x ∷ later) s
      ∙ rw done (unfold and_then update_rows in rw failed refl)
