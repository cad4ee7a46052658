-- ===== src/Iface/Kiss/Frames.antt =====
-- What the decoder of src/iface/kiss.rs makes of the frames that the encoder writes.
use mathlib.Core.List.{append_assoc, append-nil}
use reticulum_sdk.Base.{
  ℕ, suc, ◌+◌, ◌-◌, ◌≤◌, ◌<◌, ◌≡◌, ◌≢◌, refl, sym, ap, ◌∙◌, List, [], ◌∷◌, ◌++◌, length,
  length-append, take, Option, none, some, Bool, true, false, not, ◌&&◌, ◌==◌, arith,
}
use native.Mathlib.Decide.{dec_le, ℕ_discrete}
use reticulum_sdk.Iface.Kiss.{
  KissDecoder, KissEvent, data', push, push_all, with_event, escape_byte, escape_into,
  encode_data_frame, kiss_decoder_new, unescape, hw_mtu, fend, fesc,
}

escaped : List ℕ → List ℕ
escaped [] = []
escaped (byte ∷ bytes) = escape_byte byte ++ escaped bytes

escape_into_lem : (bytes frame : List ℕ) → escape_into bytes frame ≡ frame ++ escaped bytes
unfolding escape_into escaped
escape_into_lem [] frame = sym (append-nil frame)
escape_into_lem (byte ∷ bytes) frame =
    escape_into_lem bytes (frame ++ escape_byte byte)
    ∙ append_assoc frame (escape_byte byte) (escaped bytes)

-- Running a decoder over a text in two pieces.
abbrev push_more : List ℕ → KissDecoder × List KissEvent → KissDecoder × List KissEvent
push_more ys r = ((push_all ys r.0).0, r.1 ++ (push_all ys r.0).1)

with_event-append :
    (o : Option KissEvent) (xs ys : List KissEvent)
    → with_event o (xs ++ ys) ≡ with_event o xs ++ ys
with_event-append none xs ys = refl
with_event-append (some e) xs ys = refl

push_all-append :
    (xs ys : List ℕ) (d : KissDecoder) → push_all (xs ++ ys) d ≡ push_more ys (push_all xs d)
unfolding push_all
push_all-append [] ys d = refl
push_all-append (x ∷ xs) ys d =
    let r = push x d in
    let rest = push_all-append xs ys r.0 in
    ap (λ m. (m.0, with_event r.1 m.1)) rest
    ∙ ap (λ e. ((push_all ys (push_all xs r.0).0).0, e))
        (with_event-append r.1 (push_all xs r.0).1 _)

-- Inside a data frame, with the bytes read so far.
abbrev inside : List ℕ → KissDecoder
inside acc = record { in_frame = true; escape = false; command = 0; bytes = acc }

abbrev escaping : List ℕ → KissDecoder
escaping acc = record { in_frame = true; escape = true; command = 0; bytes = acc }

module _ (acc : List ℕ) where
  push_full :
      (byte : ℕ) → 564 ≤ length acc → byte ≢ fend → push byte (inside acc) ≡ (inside acc, none)
  unfolding push
  push_full byte full other = ground arith

  module _ (room : length acc < 564) where
    push_plain :
        (byte : ℕ)
        → byte ≢ fend
        → byte ≢ fesc
        → push byte (inside acc) ≡ (inside (acc ++ (byte ∷ [])), none)
    unfolding push
    push_plain byte other other' = ground arith

    push_escape : push fesc (inside acc) ≡ (escaping acc, none)
    unfolding push
    push_escape = ground arith

    push_escaped :
        (byte : ℕ)
        → byte ≢ fend
        → byte ≢ fesc
        → push byte (escaping acc) ≡ (inside (acc ++ (unescape true byte ∷ [])), none)
    unfolding push
    push_escaped byte other other' = ground arith

module _ (acc : List ℕ) (byte : ℕ) where
  escape_byte_cases :
      (byte ≡ fend → escape_byte byte ≡ 0xdb ∷ 0xdc ∷ [])
      × (byte ≡ fesc → escape_byte byte ≡ 0xdb ∷ 0xdd ∷ [])
      × (byte ≢ fend → byte ≢ fesc → escape_byte byte ≡ byte ∷ [])
  unfolding escape_byte
  escape_byte_cases = (λ e. ground arith, λ e. ground arith, λ e f. ground arith)

  step_full : 564 ≤ length acc → push_all (escape_byte byte) (inside acc) ≡ (inside acc, [])
  unfolding push_all
  step_full full = elim (ℕ_discrete byte fend) [
    | yes same ↦
        rw
          (
            escape_byte_cases.0 same,
            push_full acc 0xdb full (omega arith),
            push_full acc 0xdc full (omega arith),
          )
          refl
    | no other ↦ elim (ℕ_discrete byte fesc) [
      | yes same ↦
          rw
            (
              escape_byte_cases.1 same,
              push_full acc 0xdb full (omega arith),
              push_full acc 0xdd full (omega arith),
            )
            refl
      | no other' ↦ rw (escape_byte_cases.2 other other', push_full acc byte full other) refl
    ]
  ]

  step_room :
      length acc < 564
      → push_all (escape_byte byte) (inside acc) ≡ (inside (acc ++ (byte ∷ [])), [])
  unfolding push_all
  step_room room = elim (ℕ_discrete byte fend) [
    | yes same ↦
        rw
          (
            escape_byte_cases.0 same,
            push_escape acc room,
            push_escaped acc room 0xdc (omega arith) (omega arith),
            same,
          )
          refl
    | no other ↦ elim (ℕ_discrete byte fesc) [
      | yes same ↦
          rw
            (
              escape_byte_cases.1 same,
              push_escape acc room,
              push_escaped acc room 0xdd (omega arith) (omega arith),
              same,
            )
            refl
      | no other' ↦
          rw (escape_byte_cases.2 other other', push_plain acc room byte other other') refl
    ]
  ]

take-nil : (n : ℕ) → take {A = ℕ} n [] ≡ []
take-nil ℕ.zero = refl
take-nil (suc n) = refl

take_none : (n : ℕ) (xs : List ℕ) → n ≡ 0 → take n xs ≡ []
take_none n xs e = rw e refl

take_one : (n k x : ℕ) (xs : List ℕ) → n ≡ suc k → take n (x ∷ xs) ≡ x ∷ take k xs
take_one n k x xs e = rw e refl

push_all-escaped :
    (bytes acc : List ℕ)
    → push_all (escaped bytes) (inside acc) ≡ (inside (acc ++ take (564 - length acc) bytes), [])
unfolding push_all escaped
push_all-escaped [] acc =
    ap (λ t. (inside t, []))
      (sym (append-nil acc) ∙ ap (λ t. acc ++ t) (sym (take-nil (564 - length acc))))
push_all-escaped (byte ∷ bytes) acc = elim (dec_le 564 (length acc)) [
  | yes full ↦
      push_all-append (escape_byte byte) (escaped bytes) (inside acc)
      ∙ ap (push_more (escaped bytes)) (step_full acc byte full)
      ∙ push_all-escaped bytes acc
      ∙ ap (λ t. (inside (acc ++ t), []))
          (take_none (564 - length acc) bytes (omega arith)
            ∙ sym (take_none (564 - length acc) (byte ∷ bytes) (omega arith)))
  | no room ↦
      let acc' = acc ++ (byte ∷ []) in
      let size : length acc' ≡ length acc + 1 = omega (arith, length-append acc (byte ∷ [])) in
      push_all-append (escape_byte byte) (escaped bytes) (inside acc)
      ∙ ap (push_more (escaped bytes)) (step_room acc byte (omega arith))
      ∙ push_all-escaped bytes acc'
      ∙ ap (λ t. (inside t, []))
          (append_assoc acc (byte ∷ []) (take (564 - length acc') bytes)
            ∙ ap (λ t. acc ++ t)
                (sym (
                  take_one (564 - length acc) (564 - length acc') byte bytes
                    (omega (arith, size)))))
]

-- A decoder that is not inside a data frame.
abbrev pub outside_data : KissDecoder → Bool
outside_data d = not (d.in_frame && (d.command == 0))

frame_open :
    (d : KissDecoder) → outside_data d ≡ true → push_all (0xc0 ∷ 0x00 ∷ []) d ≡ (inside [], [])
unfolding push_all push
frame_open d out = ground arith

frame_close :
    (acc : List ℕ) → push_all (0xc0 ∷ []) (inside acc) ≡ (kiss_decoder_new, data' acc ∷ [])
unfolding push_all push
frame_close acc = refl

pub push_all-encode_data_frame :
    (bytes : List ℕ) (d : KissDecoder)
    → outside_data d ≡ true
    → push_all (encode_data_frame bytes) d ≡ (kiss_decoder_new, data' (take hw_mtu bytes) ∷ [])
unfolding encode_data_frame
push_all-encode_data_frame bytes d out =
    let head = 0xc0 ∷ 0x00 ∷ [] in
    ap (λ f. push_all (f ++ (0xc0 ∷ [])) d) (escape_into_lem bytes head)
    ∙ push_all-append (head ++ escaped bytes) (0xc0 ∷ []) d
    ∙ ap (push_more (0xc0 ∷ [])) (
        push_all-append head (escaped bytes) d
        ∙ ap (push_more (escaped bytes)) (frame_open d out)
        ∙ push_all-escaped bytes [])
    ∙ frame_close (take 564 bytes)

-- The frames of some payloads, one after the other.
unfoldable pub frames : List (List ℕ) → List ℕ
frames [] = []
frames (p ∷ payloads) = encode_data_frame p ++ frames payloads

unfoldable pub delivered : List (List ℕ) → List KissEvent
delivered [] = []
delivered (p ∷ payloads) = data' (take hw_mtu p) ∷ delivered payloads

-- The decoder reads the frames of any payloads, one after the other, as these payloads in order,
-- each cut to 564 bytes, and is then in its initial state.
pub push_all-frames :
    (payloads : List (List ℕ))
    → push_all (frames payloads) kiss_decoder_new ≡ (kiss_decoder_new, delivered payloads)
unfolding frames delivered push_all
push_all-frames [] = refl
push_all-frames (p ∷ payloads) =
    push_all-append (encode_data_frame p) (frames payloads) kiss_decoder_new
    ∙ ap (push_more (frames payloads)) (push_all-encode_data_frame p kiss_decoder_new refl)
    ∙ ap (λ r. (r.0, data' (take hw_mtu p) ∷ r.1)) (push_all-frames payloads)
