-- ===== src/Outbox/Serial.antt =====
-- internal/outbox/outbox.go: the number at the end of an identifier.
use gomeshcom_client.Prelude.{
  ℕ, suc, ◌^◌, ◌≤◌, ◌<◌, ◌≡◌, ◌≢◌, ap, ◌∙◌, sym, false, [], ◌∷◌, ◌++◌, none, some, arith, is_empty,
  drop, append_assoc,
}
use gomeshcom_client.Text.{Text, last_index, trim_space}
use gomeshcom_client.Text.Search.{last_index-append, drop-suc-append}
use gomeshcom_client.Text.Trim.{is_empty-append}
use gomeshcom_client.Chatlog.BaseCall.{digits-lacks}
use gomeshcom_client.Console.Decimal.{string_id}
use gomeshcom_client.Console.Decimal.RoundTrip.{string_id-decimal, string_id-injective}
use gomeshcom_client.Outbox.{new_id}

-- An identifier that one of the first `n` registrations may have given out.
pub record IsNumbered (n : ℕ) (id : Text) : Type 0 where
  pub stamp : Text
  pub source : Text
  pub number : ℕ
  pub at_most : number ≤ n
  pub is_id : id ≡ new_id stamp source number

-- What stands behind the last dash.
serial : Text → Text
serial id = elim (last_index b'-' id) [ none ↦ [] | some i ↦ drop (suc i) id ]

serial-new_id :
    (stamp source : Text) (n : ℕ) → n < 10 ^ 20 → serial (new_id stamp source n) ≡ string_id n
unfolding serial new_id
serial-new_id stamp source n h =
    let front = stamp ++ (b'-' ∷ trim_space source) in
    let shape : stamp ++ (b'-' ∷ (trim_space source ++ (b'-' ∷ string_id n)))
        ≡ front ++ (b'-' ∷ string_id n) =
      sym (append_assoc stamp (b'-' ∷ trim_space source) (b'-' ∷ string_id n)) in
    let found =
      last_index-append b'-' front (string_id n)
        (digits-lacks (string_id n) (string_id-decimal n h).1) in
    rw shape (ground (arith, found, drop-suc-append b'-' front (string_id n)))

pub new_id-fresh :
    (stamp source : Text) (n : ℕ) {id : Text}
    → suc n < 10 ^ 20
    → IsNumbered n id
    → new_id stamp source (suc n) ≢ id
new_id-fresh stamp source n h i e =
    let same : string_id (suc n) ≡ string_id i.number =
      sym (serial-new_id stamp source (suc n) h)
      ∙ ap serial (e ∙ i.is_id)
      ∙ serial-new_id i.stamp i.source i.number (omega (arith, i.at_most)) in
    let equal = string_id-injective (suc n) i.number h (omega (arith, i.at_most)) same in
    omega (arith, i.at_most)

pub IsNumbered-is_empty : {n : ℕ} {id : Text} → IsNumbered n id → is_empty id ≡ false
unfolding new_id
IsNumbered-is_empty i = rw i.is_id (is_empty-append i.stamp b'-' _)
