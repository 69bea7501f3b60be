-- ===== src/Runtime/Conduct.antt =====
-- The rules on a stream and a TCP connection that one goroutine joins.
use mule.Base.{◌≡◌, Bool, true, false, ◌&&◌, ◌||◌, ◌==◌, ok}
use mule.Protocol.Frame.{type_open, type_ok}
use mule.Runtime.Program.{
  Action, Answer, receive, send, set_deadline, clear_deadline, close_stream, dial, close_tcp,
  open_stream, accept_stream, pipe,
}
use mule.Runtime.Monitor.{Monitor}

pub record Link : Type 0 where
  -- Whether they are open, and whether the stream has a deadline.
  pub stream : Bool
  pub tcp : Bool
  pub timed : Bool
  -- Whether OPEN was sent, and whether OK was: by this side with its target connected, or by the
  -- other in answer to OPEN.
  pub asked : Bool
  pub agreed : Bool

abbrev pub follow : Link → (a : Action) → Answer a → Link
follow l receive (ok f) = record l { agreed = l.agreed || (f.type == type_ok && l.asked) }
follow l (send f) sent = record l {
  asked = l.asked || (f.type == type_open && sent);
  agreed = l.agreed || (f.type == type_ok && (sent && l.tcp));
}
follow l set_deadline r = record l { timed = true }
follow l clear_deadline r = record l { timed = false }
follow l close_stream r = record l { stream = false }
follow l (dial t) connected = record l { tcp = connected }
follow l close_tcp r = record l { tcp = false }
follow l open_stream opened = record l { stream = opened }
follow l accept_stream accepted = record l { stream = accepted }
follow l pipe r = record l { stream = false; tcp = false }
follow l a r = l

-- Frames are exchanged on an open stream under a deadline; the two are joined when both are open,
-- the sides have agreed and the deadline is off; neither is replaced while it is open.
abbrev pub Allowed : Link → Action → Type 0
Allowed l receive = (l.stream ≡ true) × (l.timed ≡ true)
Allowed l (send f) = (l.stream ≡ true) × (l.timed ≡ true)
Allowed l (dial t) = l.tcp ≡ false
Allowed l open_stream = l.stream ≡ false
Allowed l accept_stream = l.stream ≡ false
Allowed l pipe = (l.stream ≡ true) × (l.tcp ≡ true) × (l.timed ≡ false) × (l.agreed ≡ true)
Allowed l a = Unit

-- A goroutine returns with both closed.
abbrev pub conduct : Monitor Link
conduct = record {
  follow = follow;
  allowed = Allowed;
  done = λ l. (l.stream ≡ false) × (l.tcp ≡ false);
}

-- A goroutine that is given a stream, and one that is given a TCP connection.
abbrev pub with_stream : Link
with_stream = record { stream = true; tcp = false; timed = false; asked = false; agreed = false }

abbrev pub with_tcp : Link
with_tcp = record { stream = false; tcp = true; timed = false; asked = false; agreed = false }

abbrev pub with_nothing : Link
with_nothing = record { stream = false; tcp = false; timed = false; asked = false; agreed = false }
