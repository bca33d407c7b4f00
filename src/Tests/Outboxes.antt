-- ===== src/Tests/Outboxes.antt =====
-- internal/outbox at a message that is sent, echoed and settled.
use gomeshcom_client.Prelude.{◌≡◌, ◌⊎◌, refl, true, some, arith}
use gomeshcom_client.Text.{
  Text, codes, upper, to_upper, text_eq, before, cut_prefix, trim_suffix, trim_left, trim_right,
  trim_space,
}
use gomeshcom_client.Map.{lookup, insert, delete}
use gomeshcom_client.Console.Decimal.{digits_loop, string_id}
use gomeshcom_client.Outbox.{
  PendingMessage, Outbox, new_outbox, match_key, key_of, is_sequence, message_matches, remove_id,
  ids_of, set_ids, new_id, register, remove_locked, take_pending, candidate, older, best_match,
  with_id, confirm_taken, settle, echo_origin, confirm, cancel, expire,
}
use gomeshcom_client.Outbox.Invariant.{IsIndexed}
use gomeshcom_client.Outbox.Settled.{
  Step, Reach, start, next, Reach-IsIndexed, IsSettled, confirm-IsSettled, confirm_echo,
  register-confirm,
}

program : Unit {0}
unfolding upper to_upper text_eq before cut_prefix trim_suffix trim_left trim_right trim_space
    lookup insert delete digits_loop string_id new_outbox match_key is_sequence message_matches
    remove_id ids_of set_ids new_id register remove_locked take_pending candidate older best_match
    with_id confirm_taken settle echo_origin confirm cancel expire
program = tt

abbrev me : Text
me = codes "qq0yy-1"

abbrev peer : Text
peer = codes "IU5PMP"

abbrev hello : Text
hello = codes "hello"

abbrev stamp : Text
stamp = codes "20260101120000"

abbrev sent : Outbox
sent = (register stamp me peer hello 7 (new_outbox 5)).0

abbrev waiting : PendingMessage
waiting = (register stamp me peer hello 7 (new_outbox 5)).1

waiting_id : waiting.id ≡ codes "20260101120000-qq0yy-1-1"
unfolding program
waiting_id = refl

sent-Reach : Reach 5 sent
unfolding program
sent-Reach = next start (Step.registers stamp me peer hello 7 (omega arith))

Reach-IsIndexed_example : IsIndexed sent
Reach-IsIndexed_example = Reach-IsIndexed sent-Reach

confirmed :
    confirm (codes "QQ0YY-1,IZ1ABC") peer (codes "hello{12}") sent
    ≡ ((confirm (codes "QQ0YY-1,IZ1ABC") peer (codes "hello{12}") sent).0, some waiting)
unfolding program
confirmed = refl

confirm-IsSettled_example :
    IsSettled sent (confirm (codes "QQ0YY-1,IZ1ABC") peer (codes "hello{12}") sent).0 waiting
    × ((key_of waiting
          ≡ match_key (echo_origin (codes "QQ0YY-1,IZ1ABC")) (trim_space peer) (codes "hello{12}"))
        ⊎ (candidate (echo_origin (codes "QQ0YY-1,IZ1ABC")) peer (codes "hello{12}") waiting
            ≡ true))
confirm-IsSettled_example =
    confirm-IsSettled (codes "QQ0YY-1,IZ1ABC") peer (codes "hello{12}") sent
      (confirm (codes "QQ0YY-1,IZ1ABC") peer (codes "hello{12}") sent).0 waiting
      Reach-IsIndexed_example confirmed

confirm_echo_example :
    (q : PendingMessage) × ((confirm (codes "QQ0YY-1") peer hello sent).1 ≡ some q)
    × (key_of q ≡ key_of waiting)
unfolding program
confirm_echo_example =
    confirm_echo (codes "QQ0YY-1") peer hello waiting.id sent waiting Reach-IsIndexed_example refl
      refl

register-confirm_example :
    (q : PendingMessage) × ((confirm
        (codes "qq0yy-1,IZ1ABC")
        peer
        hello
        (register stamp me peer hello 9 sent).0).1
      ≡ some q)
    × (key_of q ≡ key_of (register stamp me peer hello 9 sent).1)
unfolding program
register-confirm_example =
    register-confirm stamp me peer hello (codes "qq0yy-1,IZ1ABC") 9 sent (omega arith)
      Reach-IsIndexed_example refl
