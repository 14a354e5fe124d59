-- ===== src/Store/Transactions/Lookup.antt =====
-- Reading the list of transactions after an update.
use mathlib.Core.Option.{some}
use audible.Base.{ℕ, zero, suc, ◌<◌, ◌≡◌, ◌≢◌, refl, ap, List, [], ◌∷◌, length, arith}
use audible.Store.Transactions.{TransStatus, Transaction, find, update, status_at}

-- An update that leaves the status alone changes no status.
pub status-update :
    (tp p : ℕ) (f : Transaction → Transaction) (list : List Transaction)
    → ((t : Transaction) → (f t).status ≡ t.status)
    → status_at p (update tp f list) ≡ status_at p list
unfolding find update
status-update tp p f [] hf = refl
status-update zero zero f (t ∷ list) hf = ap some (hf t)
status-update zero (suc p) f (t ∷ list) hf = refl
status-update (suc tp) zero f (t ∷ list) hf = refl
status-update (suc tp) (suc p) f (t ∷ list) hf = status-update tp p f list hf

pub status-update_ne :
    (tp p : ℕ) (f : Transaction → Transaction) (list : List Transaction)
    → p ≢ tp
    → status_at p (update tp f list) ≡ status_at p list
unfolding find update
status-update_ne tp p f [] hn = refl
status-update_ne zero zero f (t ∷ list) hn = absurd (hn refl)
status-update_ne zero (suc p) f (t ∷ list) hn = refl
status-update_ne (suc tp) zero f (t ∷ list) hn = refl
status-update_ne (suc tp) (suc p) f (t ∷ list) hn =
    status-update_ne tp p f list (λ e. hn (ap suc e))

-- A transaction that is there takes the status it is given.
pub status-update_eq :
    (tp : ℕ) (st old : TransStatus) (f : Transaction → Transaction) (list : List Transaction)
    → ((t : Transaction) → (f t).status ≡ st)
    → status_at tp list ≡ some old
    → status_at tp (update tp f list) ≡ some st
unfolding find update
status-update_eq tp st old f [] hf e = absurd (cc e)
status-update_eq zero st old f (t ∷ list) hf e = ap some (hf t)
status-update_eq (suc tp) st old f (t ∷ list) hf e = status-update_eq tp st old f list hf e

pub status-length :
    (p : ℕ) (list : List Transaction) {st : TransStatus}
    → status_at p list ≡ some st
    → p < length list
unfolding find
status-length p [] e = absurd (cc e)
status-length zero (t ∷ list) e = omega arith
status-length (suc p) (t ∷ list) e = omega (arith, status-length p list e)
