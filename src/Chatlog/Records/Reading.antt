-- ===== src/Chatlog/Records/Reading.antt =====
-- internal/chatlog/chatlog.go: what `ReadSince` returns of the rows of a conversation.
use mathlib.Core.List.{Mem, mem-cons_self, mem-cons_of_mem}
use gomeshcom_client.Prelude.{
  append-nil, subst, ℕ, ◌≡◌, refl, Bool, true, false, not, ◌||◌, List, [], ◌∷◌, ◌++◌, arith, all,
  is_empty, some, none, ◌⊎◌, if◌then◌else◌, ltb, leb, Bool-cases, inl, inr,
}
use gomeshcom_client.Text.{Text}
use gomeshcom_client.Text.Search.{text_eq_iff}
use gomeshcom_client.Chatlog.Ids.{valid_conversation_id}
use gomeshcom_client.Chatlog.Records.{
  Record, same_message, any, is_duplicate_record, read_onto, read_since,
}

-- No record repeats an earlier one.
abbrev pub AreDistinct : List Record → Type 0
AreDistinct [] = Unit
AreDistinct (r ∷ rs) = (all (λ s. not (is_duplicate_record (r ∷ []) s)) rs ≡ true) × AreDistinct rs

any-append : (p : Record → Bool) (xs ys : List Record) → any p (xs ++ ys) ≡ (any p xs || any p ys)
any-append p [] ys = refl
any-append p (x ∷ xs) ys = ground (arith, any-append p xs ys)

is_duplicate_record-append :
    (xs ys : List Record) (s : Record)
    → is_duplicate_record (xs ++ ys) s ≡ (is_duplicate_record xs s || is_duplicate_record ys s)
unfolding is_duplicate_record
is_duplicate_record-append xs ys s = ground (arith, any-append (λ e. same_message e s) xs ys)

-- A record without an identifier is repeated by none.
is_duplicate_record-bare :
    (r s : Record) → is_empty r.msg_id ≡ true → is_duplicate_record (r ∷ []) s ≡ false
unfolding is_duplicate_record same_message
is_duplicate_record-bare r s h = ground (arith, text_eq_iff r.msg_id s.msg_id)

all-both :
    (xs ys rs : List Record)
    → all (λ s. not (is_duplicate_record (xs ++ ys) s)) rs ≡ true
    → (all (λ s. not (is_duplicate_record xs s)) rs ≡ true)
      × (all (λ s. not (is_duplicate_record ys s)) rs ≡ true)
all-both xs ys [] h = (refl, refl)
all-both xs ys (r ∷ rs) h = ground (arith, is_duplicate_record-append xs ys r, all-both xs ys rs)

all-bare :
    (r : Record) (rs : List Record)
    → is_empty r.msg_id ≡ true
    → all (λ s. not (is_duplicate_record (r ∷ []) s)) rs ≡ true
all-bare r [] h = refl
all-bare r (s ∷ rs) h = ground (arith, is_duplicate_record-bare r s, all-bare r rs h)

-- The records that the loop has noted once it is past one.
abbrev noted : List Record → Record → List Record
noted seen r = if is_empty r.msg_id then seen else seen ++ (r ∷ [])

noted-keeps :
    (seen : List Record) (r : Record) (rs : List Record)
    → all (λ s. not (is_duplicate_record (noted seen r) s)) rs ≡ true
    → (all (λ s. not (is_duplicate_record seen s)) rs ≡ true)
      × (all (λ s. not (is_duplicate_record (r ∷ []) s)) rs ≡ true)
noted-keeps seen r rs h = elim (Bool-cases (is_empty r.msg_id)) [
  | inl e ↦ ground (arith, all-bare r rs e)
  | inr n ↦ ground (arith, all-both seen (r ∷ []) rs)
]

read_onto-fresh :
    (since : ℕ) (seen recs : List Record)
    → all (λ s. not (is_duplicate_record seen s)) (read_onto since seen recs) ≡ true
unfolding read_onto
read_onto-fresh since seen [] = refl
read_onto-fresh since seen (r ∷ recs) = ground (
  arith,
  read_onto-fresh since seen recs,
  noted-keeps seen r (read_onto since (noted seen r) recs)
      (read_onto-fresh since (noted seen r) recs),
)

read_onto-AreDistinct :
    (since : ℕ) (seen recs : List Record) → AreDistinct (read_onto since seen recs)
unfolding read_onto
read_onto-AreDistinct since seen [] = tt
read_onto-AreDistinct since seen (r ∷ recs) = elim (Bool-cases (is_duplicate_record seen r)) [
  | inl e ↦ rw (e, read_onto) (read_onto-AreDistinct since seen recs)
  | inr n ↦
      rw (n, read_onto)
        (elim (Bool-cases (ltb r.received_at since)) [
          | inl e ↦ rw e (read_onto-AreDistinct since (noted seen r) recs)
          | inr m ↦ rw m (
            (noted-keeps seen r (read_onto since (noted seen r) recs)
                (read_onto-fresh since (noted seen r) recs)).1,
            read_onto-AreDistinct since (noted seen r) recs,
          )
        ])
]

read_onto-since :
    (since : ℕ) (seen recs : List Record)
    → all (λ r. leb since r.received_at) (read_onto since seen recs) ≡ true
unfolding read_onto
read_onto-since since seen [] = refl
read_onto-since since seen (r ∷ recs) =
    ground (arith, read_onto-since since seen recs, read_onto-since since (noted seen r) recs)

noted-before :
    (seen before : List Record) (b s : Record)
    → is_duplicate_record (seen ++ (b ∷ before)) s ≡ false
    → (is_duplicate_record (noted seen b ++ before) s ≡ false)
      × (is_duplicate_record (seen ++ before) s ≡ false)
noted-before seen before b s h = ground (
  arith,
  is_duplicate_record-append seen (b ∷ before) s,
  is_duplicate_record-append (b ∷ []) before s,
  is_duplicate_record-append seen before s,
  is_duplicate_record-append (noted seen b) before s,
  is_duplicate_record-append seen (b ∷ []) s,
)

read_onto-Mem :
    (since : ℕ) (seen before : List Record) (r : Record) (behind : List Record)
    → is_duplicate_record (seen ++ before) r ≡ false
    → leb since r.received_at ≡ true
    → Mem r (read_onto since seen (before ++ (r ∷ behind)))
unfolding read_onto
read_onto-Mem since seen [] r behind d l =
    let d' : is_duplicate_record seen r ≡ false =
      subst (λ z. is_duplicate_record z r ≡ false) (append-nil seen) d in
    let m : ltb r.received_at since ≡ false = ground arith in
    rw (d', read_onto) (rw m mem-cons_self)
read_onto-Mem since seen (b ∷ before) r behind d l =
    let (d', e') = noted-before seen before b r d in
    elim (Bool-cases (is_duplicate_record seen b)) [
      | inl e ↦ rw (e, read_onto) (read_onto-Mem since seen before r behind e' l)
      | inr n ↦
          rw (n, read_onto)
            (elim (Bool-cases (ltb b.received_at since)) [
              | inl e ↦ rw e (read_onto-Mem since (noted seen b) before r behind d' l)
              | inr m ↦
                  rw m (mem-cons_of_mem b (read_onto-Mem since (noted seen b) before r behind d' l))
            ])
    ]

-- For a valid identifier, `ReadSince` returns records from the given time on, of which none
-- repeats an earlier one within five minutes; for any other, it returns the error.
pub read_since-AreDistinct :
    (id : Text) (since : ℕ) (recs : List Record)
    → ((valid_conversation_id id ≡ false) × (read_since id since recs ≡ none))
      ⊎ ((out : List Record) × (read_since id since recs ≡ some out)
          × (all (λ r. leb since r.received_at) out ≡ true)
          × AreDistinct out)
unfolding read_since
read_since-AreDistinct id since recs = elim (Bool-cases (valid_conversation_id id)) [
  | inr n ↦ inl (n, ground arith)
  | inl v ↦ inr (
    read_onto since [] recs,
    ground arith,
    read_onto-since since [] recs,
    read_onto-AreDistinct since [] recs,
  )
]

-- For a valid identifier, `ReadSince` returns every record from the given time on that repeats
-- none of the records before it.
pub read_since-Mem :
    (id : Text) (since : ℕ) (before : List Record) (r : Record) (behind : List Record)
    → valid_conversation_id id ≡ true
    → is_duplicate_record before r ≡ false
    → leb since r.received_at ≡ true
    → (out : List Record) × (read_since id since (before ++ (r ∷ behind)) ≡ some out) × Mem r out
unfolding read_since
read_since-Mem id since before r behind v d l = (
  read_onto since [] (before ++ (r ∷ behind)),
  ground arith,
  read_onto-Mem since [] before r behind d l,
)
