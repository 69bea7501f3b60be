-- ===== src/Protocol/Delivery.antt =====
-- Frames over streams: `WriteFrame` into a writer, and `ReadFrame` from a reader.
use mule.Base.{
  ℕ, zero, suc, ◌/◌, ◌%◌, ◌≤◌, ◌<◌, ◌≡◌, ◌≢◌, refl, sym, ap, subst, ◌∙◌, ◌⊎◌, inl, inr, Text, [],
  ◌∷◌, ◌++◌, append-nil, append_assoc, true, false, Bool-cases, ◌||◌, length, take, drop,
  take-append-drop, length-drop, ok, err, Option-cases, arith, pos, pos_part, ltb_ℤ, eq_ℤ,
}
use mule.Protocol.Frame.{
  Frame, Error, io, invalid_write_count, short_write, max_frame_len, frame_too_large, bad_frame,
  names_service, valid_direction, type_open, type_probe, direction_forward, direction_reverse,
}
use mule.Protocol.Stream.{
  Writer, Outcome, done, failed, stuck, answer, after_write, write_full_loop, write_full,
}
use mule.Protocol.Encode.{put_uint16, then_body, write_frame, frame_body}
use mule.Protocol.Layout.{layout, frame_body-layout}

-- A frame on the wire: the length of its body in two bytes, big end first, and the body.
abbrev pub wire : Frame → Text
wire f = (length (layout f) / 256) ∷ (length (layout f) % 256) ∷ layout f

-- The loop of `writeFull` ends within the fuel that it is given, whatever the writer answers.
write_full_loop-ne-stuck :
    (fuel : ℕ) (w : Writer) (p : Text) → length p ≤ fuel → (write_full_loop fuel w p).1 ≢ stuck
unfolding write_full_loop
write_full_loop-ne-stuck fuel w [] h e = cc
write_full_loop-ne-stuck zero w (b ∷ p) h e = absurd (omega arith)
write_full_loop-ne-stuck (suc fuel) w (b ∷ p) h e =
    let n = pos_part (answer w (b ∷ p)).count in
    ground (
      arith,
      length-drop n (b ∷ p),
      write_full_loop-ne-stuck fuel (after_write w (b ∷ p)) (drop n (b ∷ p)),
    )

pub write_full-ne-stuck : (w : Writer) (p : Text) → (write_full w p).1 ≢ stuck
unfolding write_full
write_full-ne-stuck w p = write_full_loop-ne-stuck (length p) w p (omega arith)

-- A round of the loop fails, or goes on behind the bytes that were taken.
loop_cases {ℓ} :
    {C : Type ℓ} (fuel : ℕ) (w : Writer) (b : ℕ) (p : Text)
    → let w' = after_write w (b ∷ p) in
      let n = pos_part (answer w (b ∷ p)).count in
      ((e : Error) → write_full_loop (suc fuel) w (b ∷ p) ≡ (w', failed e) → C)
      → (write_full_loop (suc fuel) w (b ∷ p) ≡ write_full_loop fuel w' (drop n (b ∷ p)) → C)
      → C
unfolding write_full_loop
loop_cases fuel w b p fails goes_on =
    let a = answer w (b ∷ p) in
    elim (Bool-cases (ltb_ℤ a.count (pos 0) || ltb_ℤ (pos (length (b ∷ p))) a.count)) [
      | inl bad ↦ fails (io invalid_write_count) (ground arith)
      | inr good ↦ elim (Option-cases a.failure) [
        | inr (e, q) ↦ fails (io e) (ground arith)
        | inl q ↦ elim (Bool-cases (eq_ℤ a.count (pos 0))) [
          | inl z ↦ fails (io short_write) (ground arith)
          | inr z ↦ goes_on (ground arith)
        ]
      ]
    ]

-- What a call has put out of `p`: a front of it, and all of it if the call ended well.
abbrev pub Sends : Text → Writer → Writer × Outcome → Type 0
Sends p w r =
    (front : Text) × (back : Text) × (front ++ back ≡ p)
    × (r.0.sent ≡ w.sent ++ front)
    × (r.1 ≡ done → back ≡ [])

write_full_loop-Sends : (fuel : ℕ) (w : Writer) (p : Text) → Sends p w (write_full_loop fuel w p)
write_full_loop-Sends fuel w [] =
    unfold write_full_loop in ([], [], refl, sym (append-nil w.sent), λ _. refl)
write_full_loop-Sends zero w (b ∷ p) =
    unfold write_full_loop in ([], b ∷ p, refl, sym (append-nil w.sent), λ e. cc)
write_full_loop-Sends (suc fuel) w (b ∷ p) =
    let n = pos_part (answer w (b ∷ p)).count in
    let taken = take n (b ∷ p) in
    let (front, back, whole, sent, ends) =
      write_full_loop-Sends fuel (after_write w (b ∷ p)) (drop n (b ∷ p)) in
    loop_cases fuel w b p
      (λ e q. (
        taken,
        drop n (b ∷ p),
        take-append-drop n (b ∷ p),
        rw q refl,
        λ d. cc (ap (λ (r : Writer × Outcome). r.1) q),
      ))
      (λ q. (
        taken ++ front,
        back,
        append_assoc taken front back ∙ ap (◌++◌ taken) whole ∙ take-append-drop n (b ∷ p),
        rw q (sent ∙ append_assoc w.sent taken front),
        rw q ends,
      ))

-- Whatever the writer answers, `write_full` puts out a front of what it was given, and all of it
-- if it ends well.
pub write_full-Sends : (w : Writer) (p : Text) → Sends p w (write_full w p)
unfolding write_full
write_full-Sends w p = write_full_loop-Sends (length p) w p

then_body-Sends :
    (body header : Text) (w : Writer) (r : Writer × Outcome)
    → Sends header w r
    → Sends (header ++ body) w (then_body body r)
then_body-Sends body header w (w', failed e) (front, back, whole, sent, ends) = (
  front,
  back ++ body,
  sym (append_assoc front back body) ∙ ap (λ (t : Text). t ++ body) whole,
  sent,
  λ d. cc,
)
then_body-Sends body header w (w', stuck) (front, back, whole, sent, ends) = (
  front,
  back ++ body,
  sym (append_assoc front back body) ∙ ap (λ (t : Text). t ++ body) whole,
  sent,
  λ d. cc,
)
then_body-Sends body header w (w', done) (front, back, whole, sent, ends) =
    let (front', back', whole', sent', ends') = write_full-Sends w' body in
    let all : front ≡ header = ground (arith, ends refl, append-nil front) in
    (
      front ++ front',
      back',
      append_assoc front front' back' ∙ rw (whole', all),
      sent' ∙ ap (λ (t : Text). t ++ front') sent ∙ append_assoc w.sent front front',
      ends',
    )

header_bytes : (n : ℕ) → n ≤ max_frame_len → put_uint16 n ≡ (n / 256) ∷ (n % 256) ∷ []
header_bytes n h = ground arith

fitting-Sends :
    (w : Writer) (f : Frame)
    → frame_body f ≡ ok (layout f)
    → length (layout f) ≤ max_frame_len
    → Sends (wire f) w (write_frame w f)
unfolding write_frame
fitting-Sends w f e h =
    let header : Text = put_uint16 (length (layout f)) in
    let sends = then_body-Sends (layout f) header w _ (write_full-Sends w header) in
    rw e (
      subst (λ (t : Text). Sends (t ++ layout f) w (then_body (layout f) (write_full w header)))
        (header_bytes _ h) sends)

-- An OPEN or a PROBE in none of the two directions.
abbrev pub LacksDirection : Frame → Type 0
LacksDirection f =
    ((f.type ≡ type_open) ⊎ (f.type ≡ type_probe))
    × (f.direction ≢ direction_forward)
    × (f.direction ≢ direction_reverse)

direction_cases :
    (f : Frame)
    → LacksDirection f × (valid_direction f.direction ≡ false) × (names_service f.type ≡ true)
      ⊎ (¬ LacksDirection f
          × ((names_service f.type ≡ false) ⊎ (valid_direction f.direction ≡ true)))
direction_cases f = elim (Bool-cases (names_service f.type)) [
  | inr unnamed ↦ inr (λ l. let named = l.0 in ground arith, inl unnamed)
  | inl named ↦ elim (Bool-cases (valid_direction f.direction)) [
    | inl valid ↦ inr (λ l. let (named, no_forward, no_reverse) = l in ground arith, inr valid)
    | inr invalid ↦ inl ((ground arith, λ e. ground arith, λ e. ground arith), invalid, named)
  ]
]

body_cases :
    (f : Frame)
    → ((frame_body f ≡ err bad_frame) × LacksDirection f)
      ⊎ ((frame_body f ≡ err frame_too_large)
          × ¬ LacksDirection f
          × (max_frame_len < length (layout f)))
      ⊎ ((frame_body f ≡ ok (layout f)) × ¬ LacksDirection f × (length (layout f) ≤ max_frame_len))
body_cases f = elim (direction_cases f) [
  | inl (lacks, invalid, named) ↦ inl (ground (arith, frame_body-layout f), lacks)
  | inr (has, valid) ↦ inr (ground (arith, frame_body-layout f))
]

then_body-ne-stuck :
    (body : Text) (r : Writer × Outcome) → r.1 ≢ stuck → (then_body body r).1 ≢ stuck
then_body-ne-stuck body (w, done) h = write_full-ne-stuck w body
then_body-ne-stuck body (w, failed e) h = λ q. cc
then_body-ne-stuck body (w, stuck) h = h

-- The three ways in which `WriteFrame` ends, each with its cause.
abbrev pub Written : Writer → Frame → Type 0
Written w f =
    ((write_frame w f ≡ (w, failed bad_frame)) × LacksDirection f)
    ⊎ ((write_frame w f ≡ (w, failed frame_too_large))
        × ¬ LacksDirection f
        × (max_frame_len < length (layout f)))
    ⊎ (Sends (wire f) w (write_frame w f)
        × ((write_frame w f).1 ≢ stuck)
        × ¬ LacksDirection f
        × (length (layout f) ≤ max_frame_len))

pub write_frame_outcome : (w : Writer) (f : Frame) → Written w f
unfolding write_frame
write_frame_outcome w f = elim (body_cases f) [
  | inl (e, lacks) ↦ inl (rw e refl, lacks)
  | inr (inl (e, has, long)) ↦ inr (inl (rw e refl, has, long))
  | inr (inr (e, has, fits)) ↦ inr (
      inr (
        fitting-Sends w f e fits,
        rw e (
            then_body-ne-stuck (layout f) _
              (write_full-ne-stuck w (put_uint16 (length (layout f))))),
        has,
        fits,
      ))
]
