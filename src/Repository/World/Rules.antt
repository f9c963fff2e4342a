-- ===== src/Repository/World/Rules.antt =====
-- Rules for actions on the database: what they leave alone, how a sequence that succeeds comes apart,
-- and that a transaction is all or nothing.
use microservice_log_parser.Prelude.{
  List, [], ◌∷◌, ◌≡◌, refl, sym, ap, subst, ◌∙◌, Bool, if◌then◌else◌,
}
use microservice_log_parser.Prelude.Result.{Result, ok, err}
use microservice_log_parser.Repository.Model.{Error, other}
use microservice_log_parser.Repository.Rows.{LogRow, NodeRow}
use microservice_log_parser.Repository.World.{
  Database, World, M, continue, ◌>>=◌, statement, finish, in_transaction,
}

pub statement-db : (w : World) → (statement w).1.db ≡ w.db
unfolding statement
statement-db w = from_faults w.faults
  where
    from_faults :
        (fs : List Bool)
        → (let r : Result Error Unit × World = elim fs [
          | [] ↦ (ok tt, w)
          | fault ∷ rest ↦ (if fault then err other else ok tt, record w { faults = rest })
        ] in
            r.1.db)
          ≡ w.db
    from_faults [] = refl
    from_faults (f ∷ fs) = refl

-- A statement takes an entry of the schedule of faults, and nothing else.
pub statement-seq : (w : World) → (statement w).1.seq ≡ w.seq
unfolding statement
statement-seq w = from_faults w.faults
  where
    from_faults :
        (fs : List Bool)
        → (let r : Result Error Unit × World = elim fs [
          | [] ↦ (ok tt, w)
          | fault ∷ rest ↦ (if fault then err other else ok tt, record w { faults = rest })
        ] in
            r.1.seq)
          ≡ w.seq
    from_faults [] = refl
    from_faults (f ∷ fs) = refl

-- Succeeding with a value and a world.
abbrev pub Runs : {A : Type 0} → M A → World → A → World → Type 0
Runs m w a w' = m w ≡ (ok a, w')

module _ {A B : Type 0} where
  continue-ok :
      (r : Result Error A) (f : A → M B) (w : World) (b : B) (w' : World)
      → continue r f w ≡ (ok b, w')
      → (a : A) × (r ≡ ok a) × Runs (f a) w b w'
  continue-ok (ok a) f w b w' h = (a, refl, h)
  continue-ok (err e) f w b w' h = absurd (cc (ap (λ x. x.0) h))

  pub >>=-Runs :
      (m : M A) (f : A → M B) (w : World) (b : B) (w'' : World)
      → Runs (m >>= f) w b w''
      → (a : A) × (w' : World) × Runs m w a w' × Runs (f a) w' b w''
  >>=-Runs m f w b w'' h =
      let (a, e, r) = continue-ok (m w).0 f (m w).1 b w'' h in
      (a, (m w).1, ap (λ x. (x, (m w).1)) e, r)

module _ {A : Type 0} where
  finish-atomic :
      (before : Database) (r : Result Error A × World) (e : Error)
      → (finish before r).0 ≡ err e
      → (finish before r).1.db ≡ before
  unfolding finish
  finish-atomic before (err x, w) e h = refl
  finish-atomic before (ok a, w) e h = by_commit (statement w).0 h
    where
      by_commit :
          (c : Result Error Unit)
          → (let r : Result Error A × World = elim c [
            | ok _ ↦ (ok a, (statement w).1)
            | err e ↦ (err e, record ((statement w).1) { db = before })
          ] in
              r.0)
            ≡ err e
          → (let r : Result Error A × World = elim c [
            | ok _ ↦ (ok a, (statement w).1)
            | err e ↦ (err e, record ((statement w).1) { db = before })
          ] in
              r.1.db)
            ≡ before
      by_commit (ok x) h = absurd (cc h)
      by_commit (err x) h = refl

  finish-Runs :
      (before : Database) (r : Result Error A × World) (a : A) (w' : World)
      → finish before r ≡ (ok a, w')
      → (v : World) × (r ≡ (ok a, v)) × (w'.db ≡ v.db)
  unfolding finish
  finish-Runs before (err x, w) a w' h = absurd (cc (ap (λ x. x.0) h))
  finish-Runs before (ok b, w) a w' h = by_commit (statement w).0 h
    where
      by_commit :
          (c : Result Error Unit)
          → (let r : Result Error A × World = elim c [
            | ok _ ↦ (ok b, (statement w).1)
            | err e ↦ (err e, record ((statement w).1) { db = before })
          ] in
              r)
            ≡ (ok a, w')
          → (v : World) × (◌≡◌ {A = Result Error A × World} (ok b, w) (ok a, v)) × (w'.db ≡ v.db)
      by_commit (ok x) h =
          (w, ap (λ x. (x, w)) (ap (λ x. x.0) h), sym (ap (λ x. x.1.db) h) ∙ statement-db w)
      by_commit (err x) h = absurd (cc (ap (λ x. x.0) h))

  -- Where a transaction fails, at its start, in its body or at the commit, the tables are as before.
  pub in_transaction-atomic :
      (body : M A) (w : World) (e : Error)
      → (in_transaction body w).0 ≡ err e
      → (in_transaction body w).1.db ≡ w.db
  unfolding in_transaction
  in_transaction-atomic body w e h = by_begin (statement w).0 h
    where
      by_begin :
          (c : Result Error Unit)
          → (let r : Result Error A × World = elim c [
            | err e ↦ (err e, (statement w).1)
            | ok _ ↦ finish w.db (body (statement w).1)
          ] in
              r.0)
            ≡ err e
          → (let r : Result Error A × World = elim c [
            | err e ↦ (err e, (statement w).1)
            | ok _ ↦ finish w.db (body (statement w).1)
          ] in
              r.1.db)
            ≡ w.db
      by_begin (err x) h = statement-db w
      by_begin (ok x) h = finish-atomic w.db (body (statement w).1) e h

  -- Where it succeeds, its body has run on the same tables, and its tables are those that stay.
  pub in_transaction-Runs :
      (body : M A) (w : World) (a : A) (w' : World)
      → Runs (in_transaction body) w a w'
      → (u : World) × (v : World) × (u.db ≡ w.db) × Runs body u a v × (w'.db ≡ v.db)
  unfolding in_transaction
  in_transaction-Runs body w a w' h = by_begin (statement w).0 h
    where
      by_begin :
          (c : Result Error Unit)
          → (let r : Result Error A × World = elim c [
            | err e ↦ (err e, (statement w).1)
            | ok _ ↦ finish w.db (body (statement w).1)
          ] in
              r)
            ≡ (ok a, w')
          → (u : World) × (v : World) × (u.db ≡ w.db) × Runs body u a v × (w'.db ≡ v.db)
      by_begin (err x) h = absurd (cc (ap (λ x. x.0) h))
      by_begin (ok x) h =
          let (v, r, d) = finish-Runs w.db (body (statement w).1) a w' h in
          ((statement w).1, v, statement-db w, r, d)

-- A view of the tables of the logs and the nodes.
module _ {V : Type 0} (view : List LogRow → List NodeRow → V) where
  -- Whatever its result, an action leaves the view as it is.
  abbrev pub Keeps : {A : Type 0} → M A → Type 0
  Keeps m = (w : World) → view (m w).1.db.logs (m w).1.db.nodes ≡ view w.db.logs w.db.nodes

  module _ {A B : Type 0} where
    continue-Keeps :
        (r : Result Error A) (f : A → M B) (w : World)
        → ((a : A) → Keeps (f a))
        → view (continue r f w).1.db.logs (continue r f w).1.db.nodes ≡ view w.db.logs w.db.nodes
    continue-Keeps (ok a) f w h = h a w
    continue-Keeps (err e) f w h = refl

    pub >>=-Keeps : (m : M A) (f : A → M B) → Keeps m → ((a : A) → Keeps (f a)) → Keeps (m >>= f)
    >>=-Keeps m f h k w = continue-Keeps (m w).0 f (m w).1 k ∙ h w

  pub statement-Keeps : Keeps statement
  statement-Keeps w = ap (λ d. view d.logs d.nodes) (statement-db w)

  pub Keeps-Runs :
      {A : Type 0} (m : M A) (w : World) (a : A) (w' : World)
      → Keeps m
      → Runs m w a w'
      → view w'.db.logs w'.db.nodes ≡ view w.db.logs w.db.nodes
  Keeps-Runs m w a w' k h = sym (ap (λ x. view x.1.db.logs x.1.db.nodes) h) ∙ k w

abbrev pub logs_only : List LogRow → List NodeRow → List LogRow
logs_only logs nodes = logs

abbrev pub nodes_only : List LogRow → List NodeRow → List NodeRow
nodes_only logs nodes = nodes

module _ (P : List LogRow → Type 0) where
  -- Whatever its result, an action keeps a property of the logs.
  abbrev pub Preserves : {A : Type 0} → M A → Type 0
  Preserves m = (w : World) → P w.db.logs → P (m w).1.db.logs

  module _ {A B : Type 0} where
    continue-Preserves :
        (r : Result Error A) (f : A → M B) (w : World)
        → ((a : A) → Preserves (f a))
        → P w.db.logs
        → P (continue r f w).1.db.logs
    continue-Preserves (ok a) f w h p = h a w p
    continue-Preserves (err e) f w h p = p

    pub >>=-Preserves :
        (m : M A) (f : A → M B) → Preserves m → ((a : A) → Preserves (f a)) → Preserves (m >>= f)
    >>=-Preserves m f h k w p = continue-Preserves (m w).0 f (m w).1 k (h w p)

  pub statement-Preserves : Preserves statement
  statement-Preserves w p = subst P (sym (ap (λ d. d.logs) (statement-db w))) p
