-- ===== src/Protocol/Receive.antt =====
-- `ReadFrame` on a stream: what it returns for a frame on the wire, what it accepts, and a stream
-- that is cut.
use mule.Base.{
  ℕ, ◌+◌, ◌*◌, ◌/◌, ◌%◌, ◌≤◌, ◌≡◌, refl, sym, ap, ◌∙◌, inl, inr, Text, [], ◌∷◌, ◌++◌, append-nil,
  true, ◌||◌, length, length-append, take, drop, take-append, drop-append, take-append-drop,
  length-take, All, All-take, IsByte, ◌==◌, if◌then◌else◌, ok, err, ◌>>=◌, arith,
}
use mule.Protocol.Frame.{Frame, io, max_frame_len, bad_frame, names_service}
use mule.Protocol.Stream.{Reader, read_full, Writer, Outcome, done}
use mule.Protocol.Encode.{write_frame}
use mule.Protocol.Decode.{parse_body, read_frame}
use mule.Protocol.Layout.{layout, length-layout}
use mule.Protocol.RoundTrip.{carried, well_formed, parse_body-layout}
use mule.Protocol.Accepts.{parse_body_accepts}
use mule.Protocol.Delivery.{wire, write_frame_outcome}
use mule.Protocol.Frame.{IoError, unknown_type, type_error}
use mule.Protocol.Stream.{cut_short}

read_framed :
    (body rest : Text) (r : Reader)
    → 2 ≤ length body
    → length body ≤ max_frame_len
    → r.incoming ≡ (length body / 256) ∷ (length body % 256) ∷ body ++ rest
    → read_frame r ≡ (parse_body body >>= λ f. ok (f, record r { incoming = rest }))
unfolding read_frame read_full
read_framed body rest r two fits e =
    ground (arith, take-append body rest, drop-append body rest, length-append body rest)

-- `ReadFrame` on the wire format of a frame within `max_frame_len`: the frame, as far as its type
-- lets it be carried, with the reader behind it; or the error of a frame that no receiver
-- understands.
pub read_frame-wire :
    (f : Frame) (r : Reader) (rest : Text)
    → length (layout f) ≤ max_frame_len
    → r.incoming ≡ wire f ++ rest
    → read_frame r ≡ (
        if well_formed f
        then ok (carried f, record r { incoming = rest })
        else if names_service f.type || f.type == type_error
        then err bad_frame
        else err (unknown_type f.type))
read_frame-wire f r rest fits e =
    rw (read_framed (layout f) rest r (length-layout f) fits e)
      (ground (arith, parse_body-layout f))

-- The stream behind a frame that was accepted.
record Framed (s : Text) (failure : IoError) (f : Frame) (r' : Reader) : Type 0 where
  body : Text
  rest : Text
  stream : s ≡ (length body / 256) ∷ (length body % 256) ∷ body ++ rest
  bytes : All IsByte body
  fits : length body ≤ max_frame_len
  parsed : parse_body body ≡ ok f
  behind : r' ≡ record { incoming = rest; failure = failure }

stream-Framed :
    (x y : ℕ) (t : Text) (failure : IoError) (f : Frame) (r' : Reader)
    → All IsByte (x ∷ y ∷ t)
    → read_frame (record { incoming = x ∷ y ∷ t; failure = failure }) ≡ ok (f, r')
    → Framed (x ∷ y ∷ t) failure f r'
unfolding read_frame read_full
stream-Framed x y t failure f r' b e =
    let n = x * 256 + y in
    record {
      body = take n t;
      rest = drop n t;
      stream = ground (arith, take-append-drop n t, length-take n t);
      bytes = All-take IsByte n t b.1.1;
      fits = ground (arith, length-take n t);
      parsed = ground arith;
      behind = ground arith;
    }

body-Framed :
    (s : Text) (failure : IoError) (f : Frame) (r' : Reader)
    → All IsByte s
    → read_frame (record { incoming = s; failure = failure }) ≡ ok (f, r')
    → Framed s failure f r'
body-Framed [] failure f r' b e = unfold read_frame read_full in cc
body-Framed (x ∷ []) failure f r' b e = unfold read_frame read_full in cc
body-Framed (x ∷ y ∷ t) failure f r' b e = stream-Framed x y t failure f r' b e

-- What `ReadFrame` accepts is the wire format of the frame that it returns, which is well formed
-- and within `max_frame_len`; the reader is left behind it.
pub read_frame_accepts :
    (r r' : Reader) (f : Frame)
    → All IsByte r.incoming
    → read_frame r ≡ ok (f, r')
    → (r.incoming ≡ wire f ++ r'.incoming)
      × (r'.failure ≡ r.failure)
      × (well_formed f ≡ true)
      × (carried f ≡ f)
      × (length (layout f) ≤ max_frame_len)
read_frame_accepts r r' f b e =
    let got = body-Framed r.incoming r.failure f r' b e in
    let (same, well, whole) = parse_body_accepts got.body f got.bytes got.parsed in
    rw (got.behind, ← same) (got.stream, refl, well, whole, got.fits)

-- What `io.ReadFull` leaves unread of a stream that ends too early: it is in the header, or behind
-- it.
abbrev pub unread : Text → Text
unread (x ∷ y ∷ t) = t
unread s = s

framed_cut :
    (body s back : Text) (x : ℕ) (failure : IoError)
    → 2 ≤ length body
    → length body ≤ max_frame_len
    → (length body / 256) ∷ (length body % 256) ∷ body ≡ s ++ x ∷ back
    → read_frame (record { incoming = s; failure = failure })
      ≡ err (io (cut_short (unread s) failure))
unfolding read_frame read_full
framed_cut body [] back x failure two fits e = refl
framed_cut body (p ∷ []) back x failure two fits e = refl
framed_cut body (p ∷ q ∷ t) back x failure two fits e =
    ground (arith, length-append t (x ∷ back), ap length e)

-- A stream that ends inside a frame, within its length or its body, gives the error of
-- `io.ReadFull` on what was left unread, and never a frame.
pub read_frame_cut :
    (f : Frame) (r : Reader) (x : ℕ) (back : Text)
    → length (layout f) ≤ max_frame_len
    → wire f ≡ r.incoming ++ x ∷ back
    → read_frame r ≡ err (io (cut_short (unread r.incoming) r.failure))
read_frame_cut f r x back fits e =
    framed_cut (layout f) r.incoming back x r.failure (length-layout f) fits e

-- Whatever the writer does in its calls, once `WriteFrame` ends well the frame that the other side
-- reads is the one that was written, as far as its type lets it be carried, and the bytes behind
-- it are left.
pub read_frame-write_frame :
    (w : Writer) (f : Frame) (failure : IoError) (rest : Text)
    → w.sent ≡ []
    → well_formed f ≡ true
    → (write_frame w f).1 ≡ done
    → read_frame (record { incoming = (write_frame w f).0.sent ++ rest; failure = failure })
      ≡ ok (carried f, record { incoming = rest; failure = failure })
read_frame-write_frame w f failure rest fresh well d = elim (write_frame_outcome w f) [
  | inl (e, lacks) ↦ cc (ap (λ (r : Writer × Outcome). r.1) e)
  | inr (inl (e, has, long)) ↦ cc (ap (λ (r : Writer × Outcome). r.1) e)
  | inr (inr ((front, back, whole, sent, ends), ended, has, fits)) ↦
      let all : (write_frame w f).0.sent ≡ wire f =
        sent ∙ rw (fresh) (sym (append-nil front) ∙ ap (◌++◌ front) (sym (ends d)) ∙ whole) in
      read_frame-wire f _ rest fits (ap (λ (t : Text). t ++ rest) all) ∙ rw well
]
