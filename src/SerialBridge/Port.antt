-- ===== src/SerialBridge/Port.antt =====
-- internal/serialbridge/port.go: opening of a port. The library of serial ports is a parameter.
pub mod Closed
use gomeshcom_client.Prelude.{
  ℕ, Bool, List, [], ◌∷◌, ◌++◌, Option, none, some, if◌then◌else◌, ◌==◌, ◌⊎◌, inl, inr,
}
use gomeshcom_client.Text.{Text, codes, text_eq}

pub record PortConfig : Type 0 where
  pub device : Text
  pub baud : ℕ
  pub data_bits : ℕ
  pub parity : Text
  pub stop_bits : ℕ
  pub dtr : Bool
  pub rts : Bool
  pub read_timeout : ℕ

-- The constants of the library.
pub data Parity : Type 0 where
  no_parity odd_parity even_parity mark_parity space_parity : Parity

pub data StopBits : Type 0 where
  one_stop_bit two_stop_bits : StopBits

-- `goserial.Mode`
pub record Mode : Type 0 where
  pub baud_rate : ℕ
  pub data_bits : ℕ
  pub parity : Parity
  pub stop_bits : StopBits
  pub dtr : Bool
  pub rts : Bool

-- The errors; the last four hold the number of the library's error.
pub data PortError : Type 0 where
  unsupported_parity : Text → PortError
  unsupported_stop_bits : ℕ → PortError
  open_failed dtr_failed rts_failed timeout_failed : ℕ → PortError

unfoldable pub library_parity : Text → Parity ⊎ PortError
library_parity parity =
    if text_eq parity (codes "none")
    then inl no_parity
    else if text_eq parity (codes "odd")
    then inl odd_parity
    else if text_eq parity (codes "even")
    then inl even_parity
    else if text_eq parity (codes "mark")
    then inl mark_parity
    else if text_eq parity (codes "space")
    then inl space_parity
    else inr (unsupported_parity parity)

unfoldable pub library_stop_bits : ℕ → StopBits ⊎ PortError
library_stop_bits stop_bits =
    if stop_bits == 1
    then inl one_stop_bit
    else if stop_bits == 2
    then inl two_stop_bits
    else inr (unsupported_stop_bits stop_bits)

unfoldable pub library_mode : PortConfig → Mode ⊎ PortError
library_mode c = elim (library_parity c.parity) [
  | inr e ↦ inr e
  | inl parity ↦ elim (library_stop_bits c.stop_bits) [
    | inr e ↦ inr e
    | inl stop_bits ↦ inl (record {
      baud_rate = c.baud;
      data_bits = c.data_bits;
      parity = parity;
      stop_bits = stop_bits;
      dtr = c.dtr;
      rts = c.rts;
    })
  ]
]

-- The calls of the library and of a port that is open.
pub data PortCall : Type 0 where
  open_port : Text → Mode → PortCall
  set_dtr set_rts : Bool → PortCall
  set_read_timeout : ℕ → PortCall
  close_port : PortCall

-- What the calls return.
pub record Library : Type 0 where
  pub open_error : Option ℕ
  pub dtr_error : Option ℕ
  pub rts_error : Option ℕ
  pub timeout_error : Option ℕ

unfoldable pub configure_opened_port : Library → PortConfig → List PortCall × Option PortError
configure_opened_port l c = elim (l.dtr_error) [
  | some e ↦ (set_dtr c.dtr ∷ [], some (dtr_failed e))
  | none ↦ elim (l.rts_error) [
    | some e ↦ (set_dtr c.dtr ∷ set_rts c.rts ∷ [], some (rts_failed e))
    | none ↦
        let calls = set_dtr c.dtr ∷ set_rts c.rts ∷ set_read_timeout c.read_timeout ∷ [] in
        elim (l.timeout_error) [ some e ↦ (calls, some (timeout_failed e)) | none ↦ (calls, none) ]
  ]
]

-- `Open`, behind `libraryMode`.
unfoldable pub open_mode : Library → PortConfig → Mode → List PortCall × Option PortError
open_mode l c mode = elim (l.open_error) [
  | some e ↦ (open_port c.device mode ∷ [], some (open_failed e))
  | none ↦
      let (calls, error) = configure_opened_port l c in
      elim error [
        | some e ↦ (open_port c.device mode ∷ (calls ++ (close_port ∷ [])), some e)
        | none ↦ (open_port c.device mode ∷ calls, none)
      ]
]

unfoldable pub open_device : Library → PortConfig → List PortCall × Option PortError
open_device l c = elim (library_mode c) [ inr e ↦ ([], some e) | inl mode ↦ open_mode l c mode ]
