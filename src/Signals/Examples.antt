-- ===== src/Signals/Examples.antt =====
-- Runs of the signal store at concrete inputs.
use muslimrentals.Prelude.{
  String, if◌then◌else◌, ◌==◌, string_equality, ◌≡◌, refl, true, false, none, some, [], ◌∷◌, find,
}
use muslimrentals.Errors.{returned}
use muslimrentals.Backlog.{bug}
use muslimrentals.Signals.{
  Signal, SignalTable, RecordSignalInput, new_signal, get_signal, has_fingerprint, record_signal,
  record_signal-again,
}

-- A digest that keeps the text.
abbrev plain : String → String
plain text = text

abbrev todo : RecordSignalInput
todo = record {
  source = "repo_scan";
  type = "todo_comment";
  category = bug;
  severity = 2;
  confidence = 60;
  evidence = "TODO: check";
  location = some "a.ts:3";
  metadata = none;
}

abbrev seen : SignalTable
seen = new_signal plain "s1" 10 todo ∷ []

first_time :
    record_signal plain "s1" 10 todo []
    ≡ returned (record { signal = new_signal plain "s1" 10 todo; is_new = true }, seen)
unfolding record_signal
first_time = refl

record_signal-again_example :
    (existing : Signal) × (find (has_fingerprint plain todo) seen ≡ some existing)
    × (later : SignalTable) × (record_signal plain "s2" 20 todo seen
        ≡ returned
            (record { signal = record existing { observed_at = 20 }; is_new = false }, later))
    × ((j : String)
        → get_signal j later ≡ (
            if existing.id == j
            then some (record existing { observed_at = 20 })
            else get_signal j seen))
record_signal-again_example =
    record_signal-again plain "s1" "s2" 10 20 todo
      (record { signal = new_signal plain "s1" 10 todo; is_new = true }) [] seen first_time
