-- ===== src/Tests/Notices.antt =====
-- internal/meshcom at a custody notice.
use gomeshcom_client.Prelude.{◌≡◌, refl, true, false}
use gomeshcom_client.Text.{Text, codes, lower, to_lower, text_eq, contains, has_prefix, cut_prefix}
use gomeshcom_client.Meshcom.Notice.{is_store_notice}

program : Unit {0}
unfolding lower to_lower text_eq contains has_prefix cut_prefix is_store_notice
program = tt

abbrev notice : Text
notice = codes "QQ1XX-7  :sto123 held"

is_notice : (is_store_notice notice ≡ true) × (is_store_notice (codes "QQ1XX-7  :sto12") ≡ false)
unfolding program
is_notice = (refl, refl)
