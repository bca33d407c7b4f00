-- ===== src/Tests/Netconsoles.antt =====
-- internal/netconsole against a node that asks for a password.
use gomeshcom_client.Prelude.{◌≡◌, ◌≤◌, refl, [], ◌∷◌, ◌++◌, none, arith, length, take}
use gomeshcom_client.Text.{Text, codes, text_eq, cut_prefix, has_prefix, trim_prefix}
use gomeshcom_client.Transport.Written.{Written}
use gomeshcom_client.Netconsole.Auth.{
  eof, out_of_fuel, Writer, write_loop, write_all, strip_return, end_error, read_onto,
  read_bounded_line, hex_value, hex_pair, hex_decode, hex_digit, hex_encode, nonce_prefix, verdict,
  read_verdict, hmac_response, respond, greet, authenticate,
}
use gomeshcom_client.Netconsole.Auth.Accepted.{Accepted, authenticate-Accepted}
use gomeshcom_client.Netconsole.Auth.Challenge.{authenticate-nonce}
use gomeshcom_client.Netconsole.Auth.Writing.{write_all-Written}

handshake : Unit {0}
unfolding text_eq cut_prefix has_prefix trim_prefix write_loop write_all strip_return end_error
    read_onto read_bounded_line hex_value hex_pair hex_decode hex_digit hex_encode verdict
    read_verdict hmac_response respond greet authenticate
handshake = tt

-- A code that stands for HMAC-SHA256 here: the key behind the message.
abbrev toy_hmac : Text → Text → Text
toy_hmac key message = message ++ key

abbrev takes_all : Writer
takes_all call raw = (length raw, none)

-- One byte in each call.
abbrev takes_one : Writer
takes_one call raw = (length (take 1 raw), none)

abbrev nonce : Text
nonce = codes "0123456789abcdef"

abbrev dialogue : Text
dialogue =
    (nonce_prefix ++ hex_encode nonce)
    ++ (b'\r' ∷ b'\n' ∷ (codes "OK" ++ (b'\r' ∷ b'\n' ∷ codes "::{}")))

authenticate-nonce_example :
    authenticate toy_hmac none (codes "pw") takes_all 128 eof dialogue ≡ record {
      sent = hex_encode (nonce ++ codes "pw") ++ codes "\r\n";
      rest = codes "::{}";
      error = verdict (codes "OK");
    }
unfolding handshake
authenticate-nonce_example =
    authenticate-nonce toy_hmac (codes "pw") takes_all 128 eof nonce (codes "OK") (codes "::{}")
      refl refl refl (omega arith) (omega arith) (λ call raw. (refl, refl))

takes_one-few : (raw : Text) → length (take 1 raw) ≤ length raw
takes_one-few [] = omega arith
takes_one-few (c ∷ raw) = omega arith

authenticate-Accepted_example :
    Accepted toy_hmac
      (codes "pw")
      takes_one
      128
      eof
      dialogue
      (authenticate toy_hmac none (codes "pw") takes_one 128 eof dialogue)
unfolding handshake
authenticate-Accepted_example =
    authenticate-Accepted toy_hmac (codes "pw") takes_one 128 eof dialogue
      (λ call raw. takes_one-few raw, λ call raw. λ e. cc) refl

write_all-Written_example : Written out_of_fuel (codes "abc") (write_all takes_one (codes "abc"))
write_all-Written_example =
    write_all-Written takes_one (codes "abc") (λ call raw. takes_one-few raw, λ call raw. λ e. cc)
