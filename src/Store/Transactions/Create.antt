-- ===== src/Store/Transactions/Create.antt =====
-- New transactions, new dependencies, and the end of a commit.
use mathlib.Core.Option.{some}
use audible.Base.{ℕ, zero, suc, ◌<◌, ◌≡◌, ◌≢◌, refl, ◌∙◌, List, [], ◌∷◌, ◌++◌, length, arith}
use audible.Store.Transactions.{
  TransStatus, Transaction, TransManager, find, update, status_at, depends_at, trans_ref,
  trans_unref, add_trans_list, trans_create, trans_add_dependency, set_status, sem_post,
  release_dependents, commit_end,
}
use audible.Store.Transactions.Lookup.{status-update, status-update_ne, status-update_eq}

find-last :
    (f : Transaction → Transaction) (t : Transaction) (list : List Transaction)
    → find (length list) (update (length list) f (list ++ t ∷ [])) ≡ some (f t)
unfolding find update
find-last f t [] = refl
find-last f t (u ∷ list) = find-last f t list

find-before :
    (f : Transaction → Transaction) (t : Transaction) (p : ℕ) (list : List Transaction)
    → p < length list
    → find p (update (length list) f (list ++ t ∷ [])) ≡ find p list
unfolding find update
find-before f t p [] h = absurd (omega arith)
find-before f t zero (u ∷ list) h = refl
find-before f t (suc p) (u ∷ list) h = find-before f t p list (omega arith)

-- `trans_create` puts a pending transaction with the next identifier, one reference and no dependency
-- behind the others, which it leaves alone.
pub trans_create-find :
    (m : TransManager) (p : ℕ)
    → p < length m.trans_list
    → (find (length m.trans_list) (trans_create m).trans_list
        ≡ some (record {
          id = m.next_id;
          refcnt = 1;
          status = TransStatus.trans_pending;
          depends = [];
          waitcnt = 0;
          sem = 1;
        }))
      × (find p (trans_create m).trans_list ≡ find p m.trans_list)
unfolding trans_create trans_ref add_trans_list
trans_create-find m p hp = (find-last _ _ m.trans_list, find-before _ _ p m.trans_list hp)

depends-update :
    (tp p : ℕ) (f : Transaction → Transaction) (list : List Transaction)
    → ((t : Transaction) → (f t).depends ≡ t.depends)
    → depends_at p (update tp f list) ≡ depends_at p list
unfolding find update
depends-update tp p f [] hf = refl
depends-update zero zero f (t ∷ list) hf = hf t
depends-update zero (suc p) f (t ∷ list) hf = refl
depends-update (suc tp) zero f (t ∷ list) hf = refl
depends-update (suc tp) (suc p) f (t ∷ list) hf = depends-update tp p f list hf

depends-push :
    (tp d : ℕ) (old : TransStatus) (list : List Transaction)
    → status_at tp list ≡ some old
    → depends_at tp (update tp (λ t. record t { depends = d ∷ t.depends }) list)
      ≡ d ∷ depends_at tp list
unfolding find update
depends-push tp d old [] e = absurd (cc e)
depends-push zero d old (t ∷ list) e = refl
depends-push (suc tp) d old (t ∷ list) e = depends-push tp d old list e

-- `trans_add_dependency` puts the dependency in front of those of the transaction, and changes the
-- status of none.
pub trans_add_dependency-depends :
    (tp dtp p : ℕ) (old : TransStatus) (list : List Transaction)
    → status_at tp list ≡ some old
    → (depends_at tp (trans_add_dependency tp dtp list) ≡ dtp ∷ depends_at tp list)
      × (status_at p (trans_add_dependency tp dtp list) ≡ status_at p list)
unfolding trans_add_dependency trans_ref
trans_add_dependency-depends tp dtp p old list e = (
  depends-update dtp tp _ _ (λ t. refl) ∙ depends-push tp dtp old list e,
  status-update dtp p _ _ (λ t. refl) ∙ status-update tp p _ list (λ t. refl),
)

-- The end of `trans_commit` gives the transaction the status found, whatever it was before, and
-- leaves the status of the others alone.
pub commit_end-status :
    (tp p : ℕ) (st old : TransStatus) (list : List Transaction)
    → status_at tp list ≡ some old
    → p ≢ tp
    → (status_at tp (commit_end tp st list) ≡ some st)
      × (status_at p (commit_end tp st list) ≡ status_at p list)
unfolding commit_end set_status release_dependents trans_unref sem_post
commit_end-status tp p st old list e hn = (
  status-update tp tp _ _ (λ t. refl)
      ∙ status-update tp tp _ _ (λ t. refl)
      ∙ status-update tp tp _ _ (λ t. refl)
      ∙ status-update_eq tp st old (λ t. record t { status = st }) list (λ t. refl) e,
  status-update tp p _ _ (λ t. refl)
      ∙ status-update tp p _ _ (λ t. refl)
      ∙ status-update tp p _ _ (λ t. refl)
      ∙ status-update_ne tp p _ list hn,
)
