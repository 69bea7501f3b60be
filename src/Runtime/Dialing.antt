-- ===== src/Runtime/Dialing.antt =====
-- The rule on targets: a goroutine dials only what the last frame that it received lets it.
use mule.Base.{Text, Option, none, some, ok}
use mule.Protocol.Frame.{Frame}
use mule.Runtime.Program.{Action, Answer, receive, dial}
use mule.Runtime.Monitor.{Monitor}

abbrev pub last_frame : Option Frame → (a : Action) → Answer a → Option Frame
last_frame last receive (ok frame) = some frame
last_frame last a r = last

abbrev pub MayDial : (Frame → Text → Type 0) → Option Frame → Action → Type 0
MayDial permitted none (dial target) = ⊥
MayDial permitted (some frame) (dial target) = permitted frame target
MayDial permitted last a = Unit

abbrev pub dialing : (Frame → Text → Type 0) → Monitor (Option Frame)
dialing permitted = record { follow = last_frame; allowed = MayDial permitted; done = λ last. Unit }
