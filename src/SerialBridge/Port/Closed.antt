-- ===== src/SerialBridge/Port/Closed.antt =====
-- internal/serialbridge/port.go: the port behind `Open`.
use gomeshcom_client.Prelude.{
  ◌≡◌, Bool, true, false, List, [], ◌∷◌, Option, none, some, arith, ◌⊎◌, inl, inr, refl,
}
use gomeshcom_client.SerialBridge.Port.{
  PortCall, open_port, set_dtr, set_rts, set_read_timeout, close_port, Library, PortConfig,
  PortError, Mode, configure_opened_port, open_mode, open_device, library_mode,
}

abbrev pub is_none {ℓ} : {A : Type ℓ} → Option A → Bool
is_none none = true
is_none (some a) = false

-- Whether the port is open behind the calls, where the library has opened it if it said so.
abbrev pub is_open_after : Library → List PortCall → Bool → Bool
is_open_after l [] is_open = is_open
is_open_after l (open_port device mode ∷ more) is_open = is_open_after l more (is_none l.open_error)
is_open_after l (close_port ∷ more) is_open = is_open_after l more false
is_open_after l (set_dtr v ∷ more) is_open = is_open_after l more is_open
is_open_after l (set_rts v ∷ more) is_open = is_open_after l more is_open
is_open_after l (set_read_timeout t ∷ more) is_open = is_open_after l more is_open

Mode-cases :
    (m : Mode ⊎ PortError) → ((mode : Mode) × (m ≡ inl mode)) ⊎ ((e : PortError) × (m ≡ inr e))
Mode-cases (inl mode) = inl (mode, refl)
Mode-cases (inr e) = inr (e, refl)

open_mode-is_open :
    (l : Library) (c : PortConfig) (mode : Mode)
    → is_open_after l (open_mode l c mode).0 false ≡ is_none (open_mode l c mode).1
unfolding open_mode configure_opened_port
open_mode-is_open l c mode = ground arith

-- Whichever call of the library fails, `Open` leaves the port open exactly if it returns it.
pub open_device-is_open :
    (l : Library) (c : PortConfig)
    → is_open_after l (open_device l c).0 false ≡ is_none (open_device l c).1
unfolding open_device
open_device-is_open l c = elim (Mode-cases (library_mode c)) [
  | inr (e, q) ↦ rw (q, open_device) refl
  | inl (mode, q) ↦ rw (q, open_device) (open_mode-is_open l c mode)
]
