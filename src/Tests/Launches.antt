-- ===== src/Tests/Launches.antt =====
-- The picker of a mode and the QR code at concrete values.
use getsloth.Base.{true, false, List, [], ◌∷◌, ◌≡◌, refl, length}
use getsloth.Host.ModePicker.{
  PickerMsg, choose_session_mode, choice, keys_of, choose_session_mode-choice,
}
use getsloth.Host.QrCode.{render_plain_half_blocks, pad_quiet_zone}
use getsloth.Host.QrCode.Scan.{scan, evened, crop, crop-scan}

abbrev keys : List PickerMsg
keys =
    PickerMsg.typed "down"
    ∷ PickerMsg.resized 100 0
    ∷ PickerMsg.typed "x"
    ∷ PickerMsg.typed "enter"
    ∷ PickerMsg.typed "k"
    ∷ PickerMsg.quit
    ∷ []

choose_session_mode-choice_example : choose_session_mode keys ≡ choice (keys_of keys)
choose_session_mode-choice_example = choose_session_mode-choice keys

crop-scan_example :
    let bits = (true ∷ false ∷ []) ∷ (true ∷ true ∷ []) ∷ (false ∷ true ∷ []) ∷ [] in
    let drawn = render_plain_half_blocks (pad_quiet_zone bits 1) in
    (scan drawn ≡ evened (pad_quiet_zone bits 1)) × (crop 1 (length bits) 2 (scan drawn) ≡ bits)
crop-scan_example =
    crop-scan 1 2 (true ∷ false ∷ []) ((true ∷ true ∷ []) ∷ (false ∷ true ∷ []) ∷ [])
      (refl, (refl, (refl, tt)))
