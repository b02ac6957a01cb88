-- ===== src/Pipeline/OutOfOrder/Ids.antt =====
-- Requests in flight by their identifiers, and the calls that answers to them lead to.
use mathlib.Core.Bool.{Bool-set}
use mathlib.Core.Logic.{∥∥₁_elim}
use mathlib.Core.List.{Mem, Memᴰ, Perm, mem-cons_self, mem-cons_of_mem}
use mathlib.Core.List.Perm
use modbus_pp.Common.{
  ℕ, ◌≡◌, refl, sym, ap, subst, ◌∙◌, inl, inr, true, false, Option, none, some, List, [], ◌∷◌, ◌++◌,
  map, arith, ◌==◌, eq→==, ==→eq, Bool-cases, All,
}
use modbus_pp.Core.Result.{Result, ok}
use modbus_pp.Core.Timestamp.{Timestamp}
use modbus_pp.Core.Pdu.{Pdu}
use modbus_pp.Pipeline.RequestQueue.{PendingRequest, holds, find, erase, has_expired, split_expired}
use modbus_pp.Pipeline.RequestQueue.Keys.{HasDistinctIds}
use modbus_pp.Pipeline.RequestQueue.Contents.{is_some, holds-find, find-erase}
use modbus_pp.Pipeline.Transactions.{invoke, correlation_of}

abbrev pub ids : List PendingRequest → List ℕ
ids [] = []
ids (req ∷ pending) = req.id ∷ ids pending

pub mem-holds :
    (id : ℕ) (pending : List PendingRequest) → Mem id (ids pending) → holds id pending ≡ true
mem-holds id pending m = ∥∥₁_elim m (Bool-set _ _) (λ d. found pending d)
  where
    found : (pending : List PendingRequest) → Memᴰ id (ids pending) → holds id pending ≡ true
    found [] d = elim d [ ]
    found (req ∷ pending) (Memᴰ.head e) = let same = eq→== req.id id (sym e) in rw same refl
    found (req ∷ pending) (Memᴰ.tail d) = let later = found pending d in ground arith

-- The identifiers are the one that is erased and the others.
pub ids-erase :
    (id : ℕ) (pending : List PendingRequest)
    → holds id pending ≡ true
    → Perm (ids pending) (id ∷ ids (erase id pending))
unfolding erase
ids-erase id [] h = absurd cc
ids-erase id (req ∷ pending) h = elim (Bool-cases (req.id == id)) [
  | inl same ↦ rw same (
      subst (λ x. Perm (req.id ∷ ids pending) (x ∷ ids pending)) (==→eq req.id id same)
        (Perm.refl (req.id ∷ ids pending)))
  | inr other ↦
      let later : holds id pending ≡ true = ground arith in
      rw other (
        Perm.trans (Perm.cons req.id (ids-erase id pending later))
          (Perm.swap id req.id (ids (erase id pending))))
]

pub split_none :
    (now : Timestamp) (pending : List PendingRequest)
    → All (λ req. has_expired now req ≡ false) pending
    → split_expired now pending ≡ ([], pending)
unfolding split_expired
split_none now [] h = refl
split_none now (req ∷ pending) h = rw (h.0, split_none now pending h.1) refl

abbrev pub called_back : Option PendingRequest → Pdu → List (ℕ × Result Pdu)
called_back none answer = []
called_back (some req) answer = invoke req.callback (ok answer)

-- The calls that these answers lead to: each one that of the request with its identifier.
abbrev pub answered_calls : List PendingRequest → List Pdu → List (ℕ × Result Pdu)
answered_calls pending [] = []
answered_calls pending (answer ∷ answers) =
    called_back (find (correlation_of answer) pending) answer ++ answered_calls pending answers

holds-erase_self :
    (id : ℕ) (pending : List PendingRequest)
    → HasDistinctIds pending
    → holds id (erase id pending) ≡ false
holds-erase_self id pending h =
    let same : (id == id) ≡ true = eq→== id id refl in
    holds-find id (erase id pending) ∙ ap is_some (find-erase id id pending h) ∙ rw same refl

held_apart :
    (id other : ℕ) (pending : List PendingRequest)
    → HasDistinctIds pending
    → holds other (erase id pending) ≡ true
    → (id == other) ≡ false
held_apart id other pending h k = elim (Bool-cases (id == other)) [
  | inl same ↦
      let here : holds id (erase id pending) ≡ true =
        subst (λ x. holds x (erase id pending) ≡ true) (sym (==→eq id other same)) k in
      let gone = holds-erase_self id pending h in absurd cc
  | inr apart ↦ apart
]

pub answered_calls-erase :
    (id : ℕ) (pending : List PendingRequest) (answers : List Pdu)
    → HasDistinctIds pending
    → All (λ answer. holds (correlation_of answer) (erase id pending) ≡ true) answers
    → answered_calls (erase id pending) answers ≡ answered_calls pending answers
answered_calls-erase id pending [] h k = refl
answered_calls-erase id pending (answer ∷ answers) h k =
    let other = held_apart id (correlation_of answer) pending h k.0 in
    rw (find-erase id (correlation_of answer) pending h, other)
      (ap (λ calls. called_back (find (correlation_of answer) pending) answer ++ calls)
        (answered_calls-erase id pending answers h k.1))

pub all_held :
    (pending : List PendingRequest) (answers : List Pdu)
    → ((id : ℕ) → Mem id (map correlation_of answers) → holds id pending ≡ true)
    → All (λ answer. holds (correlation_of answer) pending ≡ true) answers
all_held pending [] h = tt
all_held pending (answer ∷ answers) h = (
  h (correlation_of answer) mem-cons_self,
  all_held pending answers (λ id m. h id (mem-cons_of_mem (correlation_of answer) m)),
)

pub no_ids : (pending : List PendingRequest) → Path (List ℕ) [] (ids pending) → pending ≡ []
no_ids [] e = refl
no_ids (req ∷ pending) e = absurd cc
