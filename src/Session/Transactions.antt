-- ===== src/Session/Transactions.antt =====
-- src/rbatis.rs: which connection a transaction's statements run on, along a sequence of calls.
use rbatis.Json.{Value}
use rbatis.Session.{
  Database, Session, find_tx, remove_tx, insert_tx, not_exist, began, begin, with_world, end_found,
  end_tx, commit, rollback, exec_found, exec,
}
use rbatis.Session.Prepared.{Queries, exec_prepare, fetch, fetch_prepare}
use rbatis.Session.Statements.{
  IsKept, exec-IsKept, exec_prepare-IsKept, fetch-IsKept, fetch_prepare-IsKept,
}
use rbatis.Prelude.{
  ◌≡◌, refl, ap, ◌∙◌, inl, inr, Bool, true, false, Option, none, some, List, [], ◌∷◌, if◌then◌else◌,
  Bool-cases, All, Outcome, ok, err, panic,
}
use rbatis.Text.{Str, str_eq, str_eq_iff, is_empty}

-- A call of begin, commit, rollback, exec, exec_prepare, fetch or fetch_prepare; a query comes with
-- the decoding of its rows.
pub data Call (N : Type 0) : Type 1 where
  begins commits rolls_back : Str → Call N
  executes : Str → Str → Call N
  executes_prepared : Str → Str → List (Value N) → Call N
  fetches : {T : Type 0} → (List (Value N) → Outcome T) → Str → Str → Call N
  fetches_prepared :
      {T : Type 0} → (List (Value N) → Outcome T) → Str → Str → List (Value N) → Call N

-- The call neither begins nor ends the transaction.
unfoldable pub LeavesAlone : {N : Type 0} → Str → Call N → Type 0
LeavesAlone tx_id (begins other) = str_eq other tx_id ≡ false
LeavesAlone tx_id (commits other) = str_eq other tx_id ≡ false
LeavesAlone tx_id (rolls_back other) = str_eq other tx_id ≡ false
LeavesAlone tx_id _ = Unit

module _ {C : Type 0} where
  find_tx-remove_tx :
      (tx_id : Str) (context : List (Str × C)) → find_tx tx_id (remove_tx tx_id context) ≡ none
  unfolding find_tx remove_tx
  find_tx-remove_tx tx_id [] = refl
  find_tx-remove_tx tx_id ((k, conn) ∷ context) = elim (Bool-cases (str_eq k tx_id)) [
    | inl same ↦ rw same (find_tx-remove_tx tx_id context)
    | inr other ↦ rw other (rw other (find_tx-remove_tx tx_id context))
  ]

  find_tx-remove_other :
      (tx_id other : Str) (context : List (Str × C))
      → str_eq other tx_id ≡ false
      → find_tx tx_id (remove_tx other context) ≡ find_tx tx_id context
  unfolding find_tx remove_tx
  find_tx-remove_other tx_id other [] h = refl
  find_tx-remove_other tx_id other ((k, conn) ∷ context) h = elim (Bool-cases (str_eq k other)) [
    | inl same ↦
        rw (same, ap (λ key. str_eq key tx_id) ((str_eq_iff k other).0 same) ∙ h)
          (find_tx-remove_other tx_id other context h)
    | inr kept ↦ elim (Bool-cases (str_eq k tx_id)) [
      | inl same ↦ rw kept (rw (same, find_tx) refl)
      | inr differs ↦ rw kept (rw (differs, find_tx) (find_tx-remove_other tx_id other context h))
    ]
  ]

  find_tx-insert_other :
      (tx_id other : Str) (conn : C) (context : List (Str × C))
      → str_eq other tx_id ≡ false
      → find_tx tx_id (insert_tx other conn context) ≡ find_tx tx_id context
  unfolding find_tx insert_tx
  find_tx-insert_other tx_id other conn context h =
      rw h (find_tx-remove_other tx_id other context h)

module _ {C W : Type 0} (db : Database C W) where
  -- The session holds for `tx_id` what it held before.
  unfoldable pub Keeps : Str → Session C W → Session C W → Type 0
  Keeps tx_id s t = find_tx tx_id t.context ≡ find_tx tx_id s.context

  with_world-Keeps {ℓ} :
      {R : Type ℓ} (tx_id : Str) (s : Session C W) (r : Outcome R × W)
      → find_tx tx_id (with_world db s r).1.context ≡ find_tx tx_id s.context
  unfolding with_world
  with_world-Keeps tx_id s (result, world) = refl

  began-Keeps :
      (tx_id other : Str) (s : Session C W) (r : Outcome C × W)
      → str_eq other tx_id ≡ false
      → Keeps tx_id s (began db other s r).1
  unfolding began Keeps
  began-Keeps tx_id other s (ok conn, world) h = find_tx-insert_other tx_id other conn s.context h
  began-Keeps tx_id other s (err message, world) h = refl
  began-Keeps tx_id other s (panic, world) h = refl

  if-Keeps {ℓ} :
      {R : Type ℓ} (tx_id : Str) (s : Session C W) (b : Bool) (x y : Outcome R × Session C W)
      → Keeps tx_id s x.1
      → Keeps tx_id s y.1
      → Keeps tx_id s (if b then x else y).1
  if-Keeps tx_id s true x y p q = p
  if-Keeps tx_id s false x y p q = q

  begin-Keeps :
      (tx_id other : Str) (s : Session C W)
      → str_eq other tx_id ≡ false
      → Keeps tx_id s (begin db other s).1
  unfolding begin Keeps
  begin-Keeps tx_id other s h = if-Keeps tx_id s (is_empty other) _ _ refl (
      if-Keeps tx_id s s.pool (began db other s (db.begin_tx s.world)) _
        (began-Keeps tx_id other s (db.begin_tx s.world) h) refl)

  end_found-Keeps :
      (finish : C → W → Outcome C × W) (tx_id other : Str) (s : Session C W) (found : Option C)
      → str_eq other tx_id ≡ false
      → Keeps tx_id s (end_found db finish other s found).1
  unfolding end_found Keeps
  end_found-Keeps finish tx_id other s none h = refl
  end_found-Keeps finish tx_id other s (some conn) h =
      with_world-Keeps tx_id (record s { context = remove_tx other s.context })
        (finish conn s.world)
      ∙ find_tx-remove_other tx_id other s.context h

  end_found-find :
      (finish : C → W → Outcome C × W) (tx_id : Str) (s : Session C W) (found : Option C)
      → find_tx tx_id s.context ≡ found
      → find_tx tx_id (end_found db finish tx_id s found).1.context ≡ none
  unfolding end_found
  end_found-find finish tx_id s none e = e
  end_found-find finish tx_id s (some conn) e =
      with_world-Keeps tx_id (record s { context = remove_tx tx_id s.context })
        (finish conn s.world)
      ∙ find_tx-remove_tx tx_id s.context

  refused :
      (tx_id sql : Str) (s : Session C W)
      → is_empty tx_id ≡ false
      → find_tx tx_id s.context ≡ none
      → exec db tx_id sql s ≡ (err (not_exist tx_id), s)
  unfolding exec exec_found
  refused tx_id sql s named e = rw (named, e) refl

  -- After a commit or a rollback of a transaction, however it ended, a statement of the transaction
  -- is refused with an error and changes nothing.
  pub exec-commit :
      (tx_id sql : Str) (s : Session C W)
      → is_empty tx_id ≡ false
      → (exec db tx_id sql (commit db tx_id s).1 ≡ (err (not_exist tx_id), (commit db tx_id s).1))
        × (exec db tx_id sql (rollback db tx_id s).1
            ≡ (err (not_exist tx_id), (rollback db tx_id s).1))
  unfolding commit rollback end_tx
  exec-commit tx_id sql s named = (
    refused tx_id sql _ named (end_found-find db.commit_tx tx_id s _ refl),
    refused tx_id sql _ named (end_found-find db.rollback_tx tx_id s _ refl),
  )

module _ {C W Q N : Type 0} (db : Database C W) (queries : Queries C W Q N) where
  -- The session after a call.
  unfoldable pub after : Call N → Session C W → Session C W
  after (begins tx_id) s = (begin db tx_id s).1
  after (commits tx_id) s = (commit db tx_id s).1
  after (rolls_back tx_id) s = (rollback db tx_id s).1
  after (executes tx_id sql) s = (exec db tx_id sql s).1
  after (executes_prepared tx_id sql args) s = (exec_prepare db queries tx_id sql args s).1
  after (fetches decode tx_id sql) s = (fetch db queries decode tx_id sql s).1
  after (fetches_prepared decode tx_id sql args) s =
      (fetch_prepare db queries decode tx_id sql args s).1

  unfoldable pub after_all : List (Call N) → Session C W → Session C W
  unfolding after
  after_all [] s = s
  after_all (call ∷ calls) s = after_all calls (after call s)

  kept : (tx_id : Str) (s t : Session C W) → IsKept s t → Keeps db tx_id s t
  unfolding IsKept Keeps
  kept tx_id s t (context, pool) = ap (find_tx tx_id) context

  after-Keeps :
      (tx_id : Str) (call : Call N) (s : Session C W)
      → LeavesAlone tx_id call
      → Keeps db tx_id s (after call s)
  unfolding after LeavesAlone commit rollback end_tx
  after-Keeps tx_id (begins other) s h = begin-Keeps db tx_id other s h
  after-Keeps tx_id (commits other) s h =
      end_found-Keeps db db.commit_tx tx_id other s (find_tx other s.context) h
  after-Keeps tx_id (rolls_back other) s h =
      end_found-Keeps db db.rollback_tx tx_id other s (find_tx other s.context) h
  after-Keeps tx_id (executes other sql) s h = kept tx_id s _ (exec-IsKept db s other sql)
  after-Keeps tx_id (executes_prepared other sql args) s h =
      kept tx_id s _ (exec_prepare-IsKept db queries s other sql args)
  after-Keeps tx_id (fetches decode other sql) s h =
      kept tx_id s _ (fetch-IsKept db queries s decode other sql)
  after-Keeps tx_id (fetches_prepared decode other sql args) s h =
      kept tx_id s _ (fetch_prepare-IsKept db queries s decode other sql args)

  pub after_all-Keeps :
      (tx_id : Str) (calls : List (Call N)) (s : Session C W)
      → All (LeavesAlone tx_id) calls
      → Keeps db tx_id s (after_all calls s)
  unfolding after_all Keeps
  after_all-Keeps tx_id [] s h = refl
  after_all-Keeps tx_id (call ∷ calls) s (p, h) =
      after_all-Keeps tx_id calls (after call s) h ∙ after-Keeps tx_id call s p

  -- While a transaction is open, a statement of it that `exec` runs is run on its own connection,
  -- whatever calls of begin, commit, rollback, exec, exec_prepare, fetch and fetch_prepare come in
  -- between that neither begin nor end it.
  pub exec-after_all :
      (tx_id sql : Str) (calls : List (Call N)) (s : Session C W) (conn : C)
      → is_empty tx_id ≡ false
      → find_tx tx_id s.context ≡ some conn
      → All (LeavesAlone tx_id) calls
      → exec db tx_id sql (after_all calls s)
        ≡ with_world db (after_all calls s) (db.execute conn sql (after_all calls s).world)
  unfolding exec Keeps exec_found
  exec-after_all tx_id sql calls s conn named open_tx h =
      rw (named, after_all-Keeps tx_id calls s h ∙ open_tx) refl
