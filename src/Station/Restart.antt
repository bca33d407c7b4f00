-- ===== src/Station/Restart.antt =====
-- internal/station/identity.go: updating the callsign, and reading it again after a restart.
use gomeshcom_client.Prelude.{
  Bool, true, false, List, [], ◌∷◌, ◌≢◌, ◌∙◌, ap, Option, none, some, ◌≡◌, ◌⊎◌, refl, arith,
  Bool-cases, inl, inr,
}
use gomeshcom_client.Text.{Text, text_eq}
use gomeshcom_client.Text.Search.{text_eq_iff}
use gomeshcom_client.Callsign.{normalize, is_valid}
use gomeshcom_client.Callsign.Normal.{normalize_idem}
use gomeshcom_client.Saving.{put, begin_save, take_out, finish_save}
use gomeshcom_client.Saving.Lost.{last_begun, last_begun-append, append-not_empty, overtaken_save}
use gomeshcom_client.Station.{Identity, load, new_identity, update}

-- `Update` accepts exactly the valid callsigns. An accepted one becomes current in its normal
-- form, which is returned; a refused one changes nothing.
pub update_cases :
    (cs : Text) (id : Identity)
    → ((is_valid cs ≡ true)
        × ((update cs id).1 ≡ some (normalize cs))
        × ((update cs id).0.current ≡ normalize cs))
      ⊎ ((is_valid cs ≡ false) × (update cs id ≡ (id, none)))
unfolding update put
update_cases cs id = ground (arith, (normalize_idem cs).1, text_eq_iff id.current (normalize cs))

-- One event in the life of the identity: a request, or a critical section of a save, where no save
-- overtakes one that began earlier.
pub data Step (id : Identity) : Identity → Type 0 where
  updates : (cs : Text) → Step id (update cs id).0
  begins : Step id (begin_save id)
  finishes : (written : Bool) → Step id (finish_save 0 written id)

pub data Reach (row : Option Text) (fallback : Text) : Identity → Type 0 where
  start : Reach row fallback (new_identity row fallback)
  next : {id id' : Identity} → Reach row fallback id → Step id id' → Reach row fallback id'

-- What a restart with the fallback would read, and where it would differ from the current value.
record IsSafe (fallback : Text) (id : Identity) : Type 0 where
  clean : id.dirty ≡ false → id.in_flight ≡ [] → load id.stored (normalize fallback) ≡ id.current
  flying : (s : Text) → id.dirty ≡ false → last_begun id.in_flight ≡ some s → s ≡ id.current
  marked : id.dirty ≡ true → load (some id.current) (normalize fallback) ≡ id.current
  flown :
      (s : Text) (ss : List Text)
      → id.in_flight ≡ s ∷ ss
      → load (some id.current) (normalize fallback) ≡ id.current

put-IsSafe :
    (fallback cs : Text) (id : Identity)
    → is_valid (normalize cs) ≡ true
    → IsSafe fallback (put (normalize cs) id)
unfolding put load
put-IsSafe fallback cs id v =
    let (n, w) = normalize_idem cs in
    record {
      clean = λ d e. absurd (ground arith);
      flying = λ s d e. absurd (ground arith);
      marked = λ d. ground (arith, n, v);
      flown = λ s ss e. ground (arith, n, v);
    }

update-IsSafe :
    {fallback : Text} {id : Identity} (cs : Text)
    → IsSafe fallback id
    → IsSafe fallback (update cs id).0
unfolding update
update-IsSafe {fallback} {id} cs k = elim (Bool-cases (is_valid (normalize cs))) [
  | inr n ↦ rw n k
  | inl v ↦ rw v (elim (Bool-cases (text_eq id.current (normalize cs))) [
    | inl e ↦ rw e k
    | inr e ↦ rw e (put-IsSafe fallback cs id v)
  ])
]

begin_save-IsSafe :
    {fallback : Text} {id : Identity} → IsSafe fallback id → IsSafe fallback (begin_save id)
unfolding begin_save
begin_save-IsSafe {fallback} {id} k = elim (Bool-cases id.dirty) [
  | inr d ↦ simp (d, begin_save) k
  | inl d ↦
      rw (d, begin_save)
        (record {
          clean = λ e f. absurd (append-not_empty id.in_flight id.current f);
          flying = λ s e f. ground (arith, last_begun-append id.in_flight id.current);
          marked = λ e. absurd (ground arith);
          flown = λ s ss e. k.marked d;
        })
]

finish_save-at :
    {fallback : Text} (written : Bool) (id : Identity) (ss : List Text)
    → id.in_flight ≡ ss
    → IsSafe fallback id
    → IsSafe fallback (finish_save 0 written id)
unfolding finish_save take_out
finish_save-at written id [] e k = rw (finish_save, e) k
finish_save-at false id (s ∷ ss) e k =
    rw (finish_save, e)
      (record {
        clean = λ d n. absurd (ground arith);
        flying = λ t d n. absurd (ground arith);
        marked = λ d. k.flown s ss e;
        flown = λ t ts n. k.flown s ss e;
      })
finish_save-at {fallback} true id (s ∷ []) e k =
    rw (finish_save, e)
      (record {
        clean = λ d n.
            ap (λ c. load (some c) (normalize fallback)) (k.flying s d (ap last_begun e))
            ∙ k.flown s [] e;
        flying = λ t d n. absurd (ground arith);
        marked = λ d. k.flown s [] e;
        flown = λ t ts n. absurd (ground arith);
      })
finish_save-at true id (s ∷ t ∷ ss) e k =
    rw (finish_save, e)
      (record {
        clean = λ d n. absurd (ground arith);
        flying = λ u d n. k.flying u d (ap last_begun e ∙ n);
        marked = λ d. k.flown s (t ∷ ss) e;
        flown = λ u us n. k.flown s (t ∷ ss) e;
      })

finish_save-IsSafe :
    {fallback : Text} {id : Identity} (written : Bool)
    → IsSafe fallback id
    → IsSafe fallback (finish_save 0 written id)
finish_save-IsSafe {fallback} {id} written k = finish_save-at written id id.in_flight refl k

Step-IsSafe :
    {fallback : Text} {id id' : Identity} → Step id id' → IsSafe fallback id → IsSafe fallback id'
Step-IsSafe (updates cs) k = update-IsSafe cs k
Step-IsSafe begins k = begin_save-IsSafe k
Step-IsSafe (finishes written) k = finish_save-IsSafe written k

Reach-IsSafe :
    {row : Option Text} {fallback : Text} {id : Identity}
    → Reach row fallback id
    → IsSafe fallback id
unfolding new_identity
Reach-IsSafe start = record {
  clean = λ d n. refl;
  flying = λ s d e. absurd (ground arith);
  marked = λ d. absurd (ground arith);
  flown = λ s ss e. absurd (ground arith);
}
Reach-IsSafe (next r s) = Step-IsSafe s (Reach-IsSafe r)

-- In every state that requests and saves can reach, with requests between the critical sections of a
-- save and with any failed writes, as long as the writes of the saves come in the order in which the
-- saves began: where nothing is marked and no save is under way, a restart with the same fallback has
-- the callsign that is current now.
pub restart_reads_current :
    (row : Option Text) (fallback : Text) (id : Identity)
    → Reach row fallback id
    → id.dirty ≡ false
    → id.in_flight ≡ []
    → (new_identity id.stored fallback).current ≡ id.current
unfolding new_identity
restart_reads_current row fallback id r d n = (Reach-IsSafe r).clean d n

-- Two changes, each with its save, where the write of the first comes last.
abbrev pub overtaken : Text → Text → Identity → Identity
overtaken a b id =
    finish_save 0 true (finish_save 1 true (begin_save (update b (begin_save (update a id).0)).0))

changed :
    (cs : Text) (id : Identity)
    → is_valid cs ≡ true
    → normalize cs ≢ id.current
    → (update cs id).0 ≡ put (normalize cs) id
unfolding update
changed cs id v n =
    ground (arith, v, (normalize_idem cs).1, text_eq_iff id.current (normalize cs), n)

-- If a save is overtaken by a later one, a callsign is lost: of two accepted changes to new callsigns,
-- where the write of the first comes behind that of the second, the second is current, nothing is
-- marked and no save is under way, but a restart reads the first.
pub overtaken_save_is_lost :
    (a b fallback : Text) (id : Identity)
    → is_valid a ≡ true
    → is_valid b ≡ true
    → normalize a ≢ id.current
    → normalize b ≢ normalize a
    → id.in_flight ≡ []
    → ((overtaken a b id).current ≡ normalize b)
      × ((overtaken a b id).dirty ≡ false)
      × ((overtaken a b id).in_flight ≡ [])
      × ((new_identity (overtaken a b id).stored fallback).current ≡ normalize a)
unfolding new_identity load put begin_save
overtaken_save_is_lost a b fallback id va vb na nb e =
    let lost : overtaken a b id
        ≡ record id { current = normalize b; dirty = false; stored = some (normalize a) } =
      ap (λ i. finish_save 0 true (finish_save 1 true (begin_save (update b (begin_save i)).0)))
        (changed a id va na)
      ∙ ap (λ i. finish_save 0 true (finish_save 1 true (begin_save i)))
          (changed b (begin_save (put (normalize a) id)) vb nb)
      ∙ overtaken_save (normalize a) (normalize b) id e in
    rw lost (refl, refl, e, ground (arith, va, (normalize_idem a).1, (normalize_idem a).0))
