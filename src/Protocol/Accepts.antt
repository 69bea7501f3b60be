-- ===== src/Protocol/Accepts.antt =====
-- The reader accepts nothing but the wire format.
use mule.Base.{
  ℕ, ◌+◌, ◌*◌, ◌≡◌, refl, Text, [], ◌∷◌, ◌++◌, true, length, ◌==◌, take-append-drop, length-take,
  All, All-drop, IsByte, Result, ok, err, ◌>>=◌, ◌>>◌, arith, ok_parts, guard,
}
use mule.Protocol.Frame.{Frame, Error, bad_frame, valid_direction}
use mule.Protocol.Decode.{read_string, parse_open, parse_error, parse_payload, parse_body}
use mule.Protocol.Layout.{string_bytes, strings_bytes, names, layout}
use mule.Protocol.RoundTrip.{carried, well_formed}

string_bytes-read_string :
    (body s rest : Text)
    → All IsByte body
    → read_string body ≡ ok (s, rest)
    → (body ≡ string_bytes s ++ rest) × All IsByte rest
unfolding read_string
string_bytes-read_string [] s rest b e = cc
string_bytes-read_string (x ∷ []) s rest b e = cc
string_bytes-read_string (x ∷ y ∷ r) s rest b e = ground (
  arith,
  take-append-drop (x * 256 + y) r,
  length-take (x * 256 + y) r,
  All-drop IsByte (x * 256 + y) r,
)

-- A string read at the head of a chain, with what it says of the bytes.
after_string {ℓ} :
    {C : Type ℓ} (body : Text) (f : Frame) (k : Text × Text → Result Error Frame)
    → All IsByte body
    → (read_string body >>= k) ≡ ok f
    → ((s rest : Text) → body ≡ string_bytes s ++ rest → All IsByte rest → k (s, rest) ≡ ok f → C)
    → C
after_string body f k b e next =
    let ((s, rest), read, more) = ok_parts (read_string body) k e in
    let (cut, b') = string_bytes-read_string body s rest b read in next s rest cut b' more

at_end :
    (rest : Text) (g f : Frame)
    → (guard (length rest == 0) bad_frame >> ok g) ≡ ok f
    → (rest ≡ []) × (g ≡ f)
at_end [] g f e = (refl, ground arith)
at_end (x ∷ rest) g f e = ground arith

open_fields :
    (t d : ℕ) (rest : Text) (f : Frame)
    → All IsByte rest
    → parse_open t (d ∷ rest) ≡ ok f
    → (rest ≡ strings_bytes (names f))
      × (valid_direction f.direction ≡ true)
      × (f.direction ≡ d)
      × (f.type ≡ t)
      × (f.code ≡ 0)
unfolding parse_open
open_fields t d rest f b e =
    let (tt', known, e0) = ok_parts (guard (valid_direction d) bad_frame) _ e in
    after_string rest f _ b e0 λ s1 r1 q1 b1 e1. after_string r1 f _ b1 e1 λ s2 r2 q2 b2 e2.
      after_string r2 f _ b2 e2 λ s3 r3 q3 b3 e3. after_string r3 f _ b3 e3 λ s4 r4 q4 b4 e4.
        after_string r4 f _ b4 e4
          λ s5 r5 q5 b5 e5. let (none_left, same) = at_end r5 _ f e5 in ground arith

parse_open-nil : (t : ℕ) → parse_open t [] ≡ err bad_frame
unfolding parse_open
parse_open-nil t = refl

-- A body that `parse_body` accepts is the wire format of the frame that it returns, which is well
-- formed and holds nothing that the wire does not carry.
pub parse_body_accepts :
    (body : Text) (f : Frame)
    → All IsByte body
    → parse_body body ≡ ok f
    → (body ≡ layout f) × (well_formed f ≡ true) × (carried f ≡ f)
unfolding layout parse_body parse_payload parse_error
parse_body_accepts [] f b e = cc
parse_body_accepts (v ∷ []) f b e = cc
parse_body_accepts (v ∷ t ∷ []) f b e = ground (arith, parse_open-nil t)
parse_body_accepts (v ∷ t ∷ d ∷ rest) f b e = ground (arith, open_fields t d rest f)
