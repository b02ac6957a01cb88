-- ===== src/Pipeline/RequestQueue/Contents.antt =====
-- The queue as a finite map from identifiers to requests: what its operations do, without the order
-- in which the requests are kept.
use modbus_pp.Common.{
  ℕ, ◌+◌, ◌*◌, ◌≡◌, refl, sym, ap, ◌∙◌, inl, inr, Bool, true, false, ◌||◌, Option, none, some, List,
  [], ◌∷◌, arith, ltb, ◌==◌, if◌then◌else◌, ==→eq, Bool-cases, if_by_cases, length,
}
use modbus_pp.Common.Int.{pos_part, neg_part}
use modbus_pp.Core.Timestamp.{Timestamp}
use modbus_pp.Pipeline.RequestQueue.{
  PendingRequest, RequestQueue, holds, insert, find, erase, remove, has_expired, remove_expired,
  cancel,
}
use modbus_pp.Pipeline.RequestQueue.Keys.{HasDistinctIds}

abbrev Contents : Type 0
Contents = ℕ → Option PendingRequest

abbrev pub contents : RequestQueue → Contents
contents queue id = find id queue.pending

abbrev pub is_some : Option PendingRequest → Bool
is_some none = false
is_some (some req) = true

-- A request enters only under an identifier that is free.
abbrev put_under : Option PendingRequest → PendingRequest → Contents → Contents
put_under (some old) req f id = f id
put_under none req f id = if req.id == id then some req else f id

abbrev put : PendingRequest → Contents → Contents
put req f id = put_under (f req.id) req f id

abbrev without_id : ℕ → Contents → Contents
without_id id f other = if id == other then none else f other

abbrev unless_expired : Timestamp → Option PendingRequest → Option PendingRequest
unless_expired now none = none
unless_expired now (some req) = if has_expired now req then none else some req

abbrev only_expired : Timestamp → Option PendingRequest → Option PendingRequest
only_expired now none = none
only_expired now (some req) = if has_expired now req then some req else none

-- More than the timeout, in milliseconds, has gone by since the request was sent, in microseconds:
-- sent + 1000 * timeout < now, with the negative parts on the other side.
abbrev pub is_late : Timestamp → PendingRequest → Bool
is_late now req =
    ltb
      (pos_part req.sent_at.us_since_epoch
        + neg_part now.us_since_epoch
        + 1000 * pos_part req.timeout)
      (pos_part now.us_since_epoch
        + neg_part req.sent_at.us_since_epoch
        + 1000 * neg_part req.timeout)

abbrev late_part : Timestamp → Option PendingRequest → Option PendingRequest
late_part now none = none
late_part now (some req) = if is_late now req then some req else none

abbrev timely_part : Timestamp → Option PendingRequest → Option PendingRequest
timely_part now none = none
timely_part now (some req) = if is_late now req then none else some req

-- As many requests as the queue may hold, where it has a bound.
abbrev pub has_room : RequestQueue → Bool
has_room queue = queue.max_size == 0 || ltb (length queue.pending) queue.max_size

-- The operations of the queue are those of a map of bounded size, in what they answer and in what
-- they leave.
pub record IsMap (queue : RequestQueue) : Type 0 where
  pub insert_tells : (req : PendingRequest) → (insert req queue).0 ≡ has_room queue
  pub insert_puts :
      (req : PendingRequest) (id : ℕ)
      → contents (insert req queue).1 id
        ≡ (if has_room queue then put req (contents queue) id else contents queue id)
  pub remove_finds : (id : ℕ) → (remove id queue).0 ≡ contents queue id
  pub remove_deletes :
      (id other : ℕ) → contents (remove id queue).1 other ≡ without_id id (contents queue) other
  pub cancel_tells : (id : ℕ) → (cancel id queue).0 ≡ is_some (contents queue id)
  pub cancel_deletes :
      (id other : ℕ) → contents (cancel id queue).1 other ≡ without_id id (contents queue) other
  pub expiry_answers :
      (now : Timestamp) (id : ℕ)
      → find id (remove_expired now queue).0 ≡ late_part now (contents queue id)
  pub expiry_deletes :
      (now : Timestamp) (id : ℕ)
      → contents (remove_expired now queue).1 id ≡ timely_part now (contents queue id)

pub holds-find :
    (id : ℕ) (pending : List PendingRequest) → holds id pending ≡ is_some (find id pending)
unfolding find
holds-find id [] = refl
holds-find id (req ∷ pending) = elim (Bool-cases (req.id == id)) [
  | inl same ↦ rw same refl
  | inr other ↦ rw other (holds-find id pending)
]

pub find_absent :
    (id : ℕ) (pending : List PendingRequest) → holds id pending ≡ false → find id pending ≡ none
find_absent id pending h = absent (find id pending) (sym (holds-find id pending) ∙ h)
  where
    absent : (x : Option PendingRequest) → is_some x ≡ false → x ≡ none
    absent none p = refl
    absent (some req) p = absurd cc

-- Two identifiers that are one id are equal.
same_id : (a b c : ℕ) → (a == b) ≡ true → (a == c) ≡ (b == c)
same_id a b c h = ap (λ (x : ℕ). x == c) (==→eq a b h)

pub find-erase :
    (id other : ℕ) (pending : List PendingRequest)
    → HasDistinctIds pending
    → find other (erase id pending) ≡ (if id == other then none else find other pending)
unfolding find erase
find-erase id other [] h =
    if_by_cases (λ (x : Option PendingRequest). none ≡ x) (id == other) (λ b. refl) (λ b. refl)
find-erase id other (req ∷ pending) h = elim (Bool-cases (req.id == id)) [
  | inl same ↦
      rw (same, same_id req.id id other same)
        (elim (Bool-cases (id == other)) [
          | inl here ↦
              let same_key : other ≡ req.id =
                sym (==→eq id other here) ∙ sym (==→eq req.id id same) in
              rw here (find_absent other pending (ap (λ (x : ℕ). holds x pending) same_key ∙ h.0))
          | inr there ↦ rw there refl
        ])
  | inr differs ↦ rw differs (elim (Bool-cases (req.id == other)) [
    | inl here ↦ let apart : (id == other) ≡ false = ground arith in rw (here, apart) refl
    | inr there ↦ rw (there, find-erase id other pending h.1) refl
  ])
]
