-- ===== src/Positions/Marks.antt =====
-- internal/positions/store.go: the tables that a save reads and writes.
use gomeshcom_client.Prelude.{
  ◌||◌, true, [], ◌∷◌, Option, none, some, ◌≡◌, ◌||◌, refl, arith, if◌then◌else◌,
}
use gomeshcom_client.Text.{Text}
use gomeshcom_client.Text.Search.{text_eq_iff}
use gomeshcom_client.Map.{Map, lookup, lookup-insert, has}
use gomeshcom_client.Positions.{Record, read_record, marked_records, write, mark_all}

module _ {F : Type 0} where
  -- What the database holds once the save under way has succeeded.
  abbrev pub landed : Option (Map (Record F)) → Map (Record F) → Map (Record F)
  landed none nodes = nodes
  landed (some m) nodes = write m nodes

  abbrev pub first_of : Option (Record F) → Option (Record F) → Option (Record F)
  first_of none o = o
  first_of (some r) o = some r

  pub lookup-write :
      (c : Text) (m nodes : Map (Record F))
      → lookup c (write m nodes) ≡ first_of (lookup c m) (lookup c nodes)
  unfolding write lookup
  lookup-write c [] nodes = refl
  lookup-write c ((k, r) ∷ m) nodes =
      ground (arith, lookup-insert k c r (write m nodes), lookup-write c m nodes)

  pub lookup-marked_records :
      (zero : Record F) (c : Text) (marks : Map (Unit {0})) (m : Map (Record F))
      → lookup c (marked_records zero marks m)
        ≡ (if has c marks then some (read_record zero c m) else none)
  unfolding marked_records lookup has
  lookup-marked_records zero c [] m = refl
  lookup-marked_records zero c ((k, u) ∷ marks) m = ground (
    arith,
    lookup-insert k c (read_record zero k m) (marked_records zero marks m),
    lookup-marked_records zero c marks m,
    text_eq_iff k c,
  )

  pub has-mark_all :
      (c : Text) (m : Map (Record F)) (marks : Map (Unit {0}))
      → has c (mark_all m marks) ≡ (has c m || has c marks)
  unfolding mark_all has lookup
  has-mark_all c [] marks = refl
  has-mark_all c ((k, r) ∷ m) marks =
      ground (arith, lookup-insert k c tt (mark_all m marks), has-mark_all c m marks)

  pub read_known :
      (zero : Record F) (c : Text) (m : Map (Record F))
      → has c m ≡ true
      → some (read_record zero c m) ≡ lookup c m
  unfolding read_record has
  read_known zero c m h = ground arith
