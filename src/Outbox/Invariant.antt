-- ===== src/Outbox/Invariant.antt =====
-- internal/outbox/outbox.go: how the index and the table of pending messages agree.
use gomeshcom_client.Prelude.{
  ℕ, suc, ◌^◌, ◌<◌, ◌≡◌, refl, sym, true, false, inl, inr, [], ◌∷◌, ◌++◌, none, some, arith,
  Bool-cases, Option-cases,
}
use gomeshcom_client.Text.{Text, text_eq}
use gomeshcom_client.Text.Search.{text_eq_iff, text_eq_refl}
use gomeshcom_client.Map.{
  lookup, lookup-insert, lookup-delete, IsUnique, insert-IsUnique, delete-IsUnique,
}
use gomeshcom_client.Outbox.{
  PendingMessage, Outbox, new_outbox, key_of, remove_id, ids_of, new_id, register, remove_locked,
}
use gomeshcom_client.Outbox.Index.{
  mem, mem-concat, mem-remove_id, mem-remove_id_ne, ids_of-insert, ids_of-set_ids,
}
use gomeshcom_client.Outbox.Serial.{IsNumbered, new_id-fresh}

pub record IsIndexed (o : Outbox) : Type 0 where
  pub named : (id : Text) (p : PendingMessage) → lookup id o.pending ≡ some p → p.id ≡ id
  pub listed :
      (id : Text) (p : PendingMessage)
      → lookup id o.pending ≡ some p
      → mem id (ids_of (key_of p) o.by_key) ≡ true
  pub keyed :
      (k id : Text) (p : PendingMessage)
      → mem id (ids_of k o.by_key) ≡ true
      → lookup id o.pending ≡ some p
      → key_of p ≡ k
  pub numbered : (k id : Text) → mem id (ids_of k o.by_key) ≡ true → IsNumbered o.next_id id
  pub unique : IsUnique o.pending
  pub timed : (id : Text) → lookup id o.pending ≡ none → lookup id o.timers ≡ none

pub new_outbox-IsIndexed : (ttl : ℕ) → IsIndexed (new_outbox ttl)
unfolding new_outbox lookup ids_of mem
new_outbox-IsIndexed ttl = record {
  named = λ id p h. absurd (ground arith);
  listed = λ id p h. absurd (ground arith);
  keyed = λ k id p h. absurd (ground arith);
  numbered = λ k id h. absurd (ground arith);
  unique = tt;
  timed = λ id h. refl;
}

-- Removing a message that is pending under its identifier.
pub remove_locked-IsIndexed :
    {o : Outbox} (p : PendingMessage)
    → IsIndexed o
    → lookup p.id o.pending ≡ some p
    → IsIndexed (remove_locked p o)
unfolding remove_locked
remove_locked-IsIndexed {o} p i e = record {
  named = λ id q h. ground (arith, lookup-delete p.id id o.pending, i.named id q);
  listed = λ id q h. ground (
    arith,
    lookup-delete p.id id o.pending,
    text_eq_iff p.id id,
    i.listed id q,
    text_eq_iff (key_of p) (key_of q),
    ids_of-set_ids (key_of q) (key_of p) (remove_id (ids_of (key_of p) o.by_key) p.id) o.by_key,
    mem-remove_id_ne id p.id (ids_of (key_of p) o.by_key),
  );
  keyed = λ k id q m h. ground (
    arith,
    lookup-delete p.id id o.pending,
    text_eq_iff (key_of p) k,
    i.keyed k id q,
    ids_of-set_ids k (key_of p) (remove_id (ids_of (key_of p) o.by_key) p.id) o.by_key,
    mem-remove_id id p.id (ids_of (key_of p) o.by_key),
  );
  numbered = λ k id m. i.numbered k id (
      ground (
        arith,
        text_eq_iff (key_of p) k,
        ids_of-set_ids k (key_of p) (remove_id (ids_of (key_of p) o.by_key) p.id) o.by_key,
        mem-remove_id id p.id (ids_of (key_of p) o.by_key),
      ));
  unique = delete-IsUnique p.id o.pending i.unique;
  timed = λ id h.
      ground (arith, lookup-delete p.id id o.pending, lookup-delete p.id id o.timers, i.timed id);
}

-- The new identifier stands nowhere yet.
unlisted :
    {o : Outbox} (stamp source : Text)
    → IsIndexed o
    → suc o.next_id < 10 ^ 20
    → (k : Text) → mem (new_id stamp source (suc o.next_id)) (ids_of k o.by_key) ≡ false
unlisted {o} stamp source i h k =
    let id = new_id stamp source (suc o.next_id) in
    elim (Bool-cases (mem id (ids_of k o.by_key))) [
      | inl e ↦ absurd (new_id-fresh stamp source o.next_id h (i.numbered k id e) refl)
      | inr e ↦ e
    ]

absent :
    {o : Outbox} (stamp source : Text)
    → IsIndexed o
    → suc o.next_id < 10 ^ 20
    → lookup (new_id stamp source (suc o.next_id)) o.pending ≡ none
absent {o} stamp source i h =
    let id = new_id stamp source (suc o.next_id) in
    elim (Option-cases (lookup id o.pending)) [
      | inl e ↦ e
      | inr (p, e) ↦ absurd (ground (arith, i.listed id p e, unlisted stamp source i h (key_of p)))
    ]

IsNumbered-suc : {n : ℕ} {id : Text} → IsNumbered n id → IsNumbered (suc n) id
IsNumbered-suc i = record {
  stamp = i.stamp;
  source = i.source;
  number = i.number;
  at_most = omega (arith, i.at_most);
  is_id = i.is_id;
}

pub register-IsIndexed :
    {o : Outbox} (stamp source destination message : Text) (now : ℕ)
    → suc o.next_id < 10 ^ 20
    → IsIndexed o
    → IsIndexed (register stamp source destination message now o).0
unfolding register
register-IsIndexed {o} stamp source destination message now h i =
    let p = (register stamp source destination message now o).1 in
    let key = key_of p in
    let new = new_id stamp source (suc o.next_id) in
    let ids = ids_of key o.by_key in
    record {
      named = λ id q e.
          ground (arith, lookup-insert new id p o.pending, text_eq_iff new id, i.named id q);
      listed = λ id q e. ground (
        arith,
        lookup-insert new id p o.pending,
        text_eq_iff new id,
        text_eq_refl new,
        i.listed id q,
        text_eq_iff key (key_of q),
        ids_of-insert (key_of q) key (ids ++ (new ∷ [])) o.by_key,
        mem-concat id new ids,
      );
      keyed = λ k id q m e. ground (
        arith,
        lookup-insert new id p o.pending,
        text_eq_iff new id,
        text_eq_iff key k,
        i.keyed k id q,
        unlisted stamp source i h k,
        ids_of-insert k key (ids ++ (new ∷ [])) o.by_key,
        mem-concat id new ids,
      );
      numbered = λ k id m. elim (Bool-cases (text_eq new id)) [
        | inl e ↦ record {
          stamp = stamp;
          source = source;
          number = suc o.next_id;
          at_most = omega arith;
          is_id = sym ((text_eq_iff new id).0 e);
        }
        | inr e ↦ IsNumbered-suc (
            i.numbered k id (
              ground (
                arith,
                text_eq_iff key k,
                ids_of-insert k key (ids ++ (new ∷ [])) o.by_key,
                mem-concat id new ids,
              )))
      ];
      unique = insert-IsUnique new p o.pending i.unique;
      timed = λ id e.
          ground
            (arith, lookup-insert new id p o.pending, lookup-insert new id tt o.timers, i.timed id);
    }
