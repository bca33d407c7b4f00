-- ===== src/Meshcom/Notice/Layout.antt =====
-- internal/meshcom/sto_notice.go: the layout of a custody notice.
use gomeshcom_client.Prelude.{
  ℕ, zero, suc, ◌+◌, ◌≤◌, ◌≡◌, ◌↔◌, refl, sym, ap, ◌∙◌, true, false, [], ◌∷◌, ◌++◌, arith, all,
  length, length-append, length-drop, take, drop, take-append-drop, take-append, drop-append, ltb,
}
use gomeshcom_client.Text.{Text, codes, text_eq, is_digit, to_lower, contains}
use gomeshcom_client.Text.Search.{text_eq_iff}
use gomeshcom_client.Meshcom.Notice.{store_notice_tag, slice, is_store_notice}

-- Nine bytes of the addressee, the tag, three digits, and anything behind them; no brace, and no
-- acknowledgement or rejection in any case.
pub record IsNotice (msg : Text) : Type 0 where
  pub addressee : Text
  pub sequence : Text
  pub behind : Text
  pub splits : msg ≡ addressee ++ (codes ":sto" ++ (sequence ++ behind))
  pub nine : length addressee ≡ 9
  pub three : length sequence ≡ 3
  pub numeric : all is_digit sequence ≡ true
  pub no_brace : contains (codes "{") msg ≡ false
  pub no_ack : contains (codes ":ack") (to_lower msg) ≡ false
  pub no_rej : contains (codes ":rej") (to_lower msg) ≡ false

length-take : (n : ℕ) (s : Text) → n ≤ length s → length (take n s) ≡ n
length-take zero s h = refl
length-take (suc n) [] h = absurd (omega arith)
length-take (suc n) (c ∷ s) h = omega (arith, length-take n s (omega arith))

drop-nil : {A : Type 0} (n : ℕ) → drop {A = A} n [] ≡ []
drop-nil zero = refl
drop-nil (suc n) = refl

drop-drop : (m n : ℕ) (s : Text) → drop n (drop m s) ≡ drop (m + n) s
drop-drop zero n s = ap (λ k. drop k s) (omega arith)
drop-drop (suc m) n [] = drop-nil n ∙ sym (drop-nil (suc m + n))
drop-drop (suc m) n (c ∷ s) =
    let e : suc (m + n) ≡ suc m + n = omega arith in drop-drop m n s ∙ ap (λ k. drop k (c ∷ s)) e

splits-at : (msg : Text) → msg ≡ take 9 msg ++ (slice 9 4 msg ++ (slice 13 3 msg ++ drop 16 msg))
splits-at msg =
    sym (take-append-drop 9 msg)
    ∙ ap (λ t. take 9 msg ++ t)
        (sym (take-append-drop 4 (drop 9 msg))
          ∙ ap (λ t. slice 9 4 msg ++ t)
              (drop-drop 9 4 msg
                ∙ sym (take-append-drop 3 (drop 13 msg))
                ∙ ap (λ t. slice 13 3 msg ++ t) (drop-drop 13 3 msg)))

module _ {msg : Text} (n : IsNotice msg) where
  drop-addressee : drop 9 msg ≡ store_notice_tag ++ (n.sequence ++ n.behind)
  drop-addressee =
      let rest = store_notice_tag ++ (n.sequence ++ n.behind) in
      ap (drop 9) n.splits
      ∙ ap (λ k. drop k (n.addressee ++ rest)) (sym n.nine)
      ∙ drop-append n.addressee rest

  slice-sequence : slice 13 3 msg ≡ n.sequence
  slice-sequence =
      ap (take 3) (sym (drop-drop 9 4 msg) ∙ ap (drop 4) drop-addressee)
      ∙ ap (λ k. take k (n.sequence ++ n.behind)) (sym n.three)
      ∙ take-append n.sequence n.behind

  sixteen_bytes : 16 ≤ length msg
  sixteen_bytes =
      let t = n.sequence ++ n.behind in
      let e : length msg ≡ length n.addressee + length (store_notice_tag ++ t) =
        ap length n.splits ∙ length-append n.addressee (store_notice_tag ++ t) in
      omega (arith, e, n.nine, n.three, length-append n.sequence n.behind)

-- `IsStoreNotice` accepts exactly the messages with nine bytes of an addressee, the tag, three
-- digits and anything behind them, in which no brace, acknowledgement or rejection stands.
pub is_store_notice-IsNotice : (msg : Text) → (is_store_notice msg ≡ true) ↔ IsNotice msg
unfolding is_store_notice text_eq
is_store_notice-IsNotice msg = (
  (λ h.
      let tag : slice 9 4 msg ≡ store_notice_tag =
        (text_eq_iff (slice 9 4 msg) store_notice_tag).0 (ground arith) in
      let enough : 16 ≤ length msg = ground arith in
      record {
        addressee = take 9 msg;
        sequence = slice 13 3 msg;
        behind = drop 16 msg;
        splits = splits-at msg ∙ ap (λ t. take 9 msg ++ (t ++ (slice 13 3 msg ++ drop 16 msg))) tag;
        nine = length-take 9 msg (omega arith);
        three = length-take 3 (drop 13 msg) (omega (arith, length-drop 13 msg));
        numeric = ground arith;
        no_brace = ground arith;
        no_ack = ground arith;
        no_rej = ground arith;
      }),
  λ n.
      let tag : slice 9 4 msg ≡ store_notice_tag = ap (take 4) (drop-addressee n) in
      let enough : ltb (length msg) 16 ≡ false = ground (arith, sixteen_bytes n) in
      rw (enough, tag, slice-sequence n, n.numeric, n.no_brace, n.no_ack, n.no_rej) refl,
)
