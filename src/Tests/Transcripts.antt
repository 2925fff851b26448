-- ===== src/Tests/Transcripts.antt =====
-- A Bus on the echoing kernel whose application writes down every callback.
use stdiobus_cpp.Prelude.{◌≡◌, refl, true, none, some, List, [], ◌∷◌, codes}
use stdiobus_cpp.Prelude.Int.{pos}
use stdiobus_cpp.Error.{from_c}
use stdiobus_cpp.Types.{Options, default_options}
use stdiobus_cpp.Embed.Kernel
use stdiobus_cpp.Bus.Machine.{Machine, update}
use stdiobus_cpp.Bus.Calls.{start, step, stop, send}
use stdiobus_cpp.Bus.Behaviour.{Owns}
use stdiobus_cpp.Bus.Transcript.{
  Entry, got_log, got_worker, recording, transcript, operations-transcript,
}
use stdiobus_cpp.Tests.Echo.{echo, echo_contract, context_at}

abbrev options : Options (List Entry)
options = record (default_options (List Entry)) { config_path = codes "bus.json" }

-- The kernel has a message to pass on.
abbrev noted : Machine echo (List Entry)
noted = record {
  world = record { contexts = some 0 ∷ []; queue = codes "hi" ∷ [] };
  heap =
      update (λ a. none) 0
        (some (record { handle = some 0; options = recording (λ slot. true) options }));
  next = 1;
  user = [];
}

noted-Owns :
    Owns echo_contract noted 0 0
      (record { handle = some 0; options = recording (λ slot. true) options })
unfolding context_at echo_contract
noted-Owns = record { stored = refl; handle = refl; context = refl }

keeps_apart :
    transcript
      (λ slot. true)
      (record { event = Kernel.log (pos 1) none; user_data = 0 }
        ∷ record { event = Kernel.worker (pos 1) (some (codes "up")); user_data = 0 }
        ∷ [])
    ≡ (got_log (pos 1) [] ∷ got_worker (pos 1) (codes "up") ∷ [])
unfolding transcript
keeps_apart = refl

operations-transcript_example :
    let starts = echo.start 0 noted.world in
    let stops = echo.stop 0 (pos 5) noted.world in
    let sends = echo.ingest 0 (codes "yo") noted.world in
    let steps = echo.step 0 (pos 5) noted.world in
    ((t : Machine echo (List Entry)) × (start echo (some 0) noted ≡ some (from_c starts.result, t))
      × (t.world ≡ starts.world)
      × (t.user ≡ transcript (λ slot. true) starts.callbacks))
    × ((t : Machine echo (List Entry)) × (stop echo (some 0) (pos 5) noted
          ≡ some (from_c stops.result, t))
        × (t.world ≡ stops.world)
        × (t.user ≡ transcript (λ slot. true) stops.callbacks))
    × ((t : Machine echo (List Entry)) × (send echo (some 0) (codes "yo") noted
          ≡ some (from_c sends.result, t))
        × (t.world ≡ sends.world)
        × (t.user ≡ transcript (λ slot. true) sends.callbacks))
    × ((t : Machine echo (List Entry)) × (step echo (some 0) (pos 5) noted ≡ some (steps.result, t))
        × (t.world ≡ steps.world)
        × (t.user ≡ transcript (λ slot. true) steps.callbacks))
operations-transcript_example =
    operations-transcript echo_contract (λ slot. true) options {s = noted} {a = 0} {h = 0}
      noted-Owns (pos 5) (codes "yo")
