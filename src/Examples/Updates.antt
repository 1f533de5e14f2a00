-- ===== src/Examples/Updates.antt =====
-- The theorems on the auto-updater, at two polls of a new build.
use zeromux.AutoUpdate.{
  UpdateConfig, Observation, Updater, launch_swap, new_updater, poll, polls, same_sha,
}
use zeromux.AutoUpdate.Marker.{parse_failed_marker, health_failed_recently}
use zeromux.AutoUpdate.Progress.{IsReady, poll-launches, Quiet, unread_build_ignored}
use zeromux.AutoUpdate.Stable.{Watched, first, poll-confirmed}
use zeromux.AutoUpdate.Written.{marker_line, parse_failed_marker-marker_line}
use zeromux.Prelude.{◌≡◌, refl, inl, true, false, none, some, [], ◌∷◌, codes, arith, All, ◌≢◌}
use zeromux.Prompts.{is_whitespace}
use zeromux.Session.Summary.{RunningSummary, rows, running_summary}

abbrev update_config : UpdateConfig
update_config = record { self_sha = codes "old"; max_wait_secs = 600 }

abbrev nothing_runs : RunningSummary
nothing_runs = running_summary [] (rows [])

abbrev new_build : Observation
new_build = record {
  stat = some (7, 100);
  hash = some (codes "new");
  wall_secs = 1000;
  marker = none;
  mono_ms = 5000;
  summary = some nothing_runs;
  smoke_ok = true;
  recheck = nothing_runs;
}

abbrev seen_once : Updater
seen_once = (poll update_config new_build new_updater).0

watched : Watched update_config seen_once new_build
watched = first new_build (7, 100) (codes "new") refl refl

ready : IsReady update_config new_build seen_once.pending_since (codes "new") nothing_runs
unfolding health_failed_recently running_summary
ready = record {
  is_foreign = refl;
  unmarked = refl;
  smoke_passes = refl;
  has_summary = refl;
  no_run = refl;
  may_stop = inl refl;
  still_no_run = refl;
  still_read = refl;
}

not_failed : same_sha seen_once.smoke_failed_sha (codes "new") ≡ false
unfolding poll
not_failed = refl

launched : (poll update_config new_build seen_once).1 ≡ launch_swap (codes "new")
launched =
    poll-launches update_config seen_once new_build new_build (7, 100) (codes "new") nothing_runs
      watched refl refl refl not_failed ready

poll-launches_example : (poll update_config new_build seen_once).1 ≡ launch_swap (codes "new")
poll-launches_example =
    poll-launches update_config seen_once new_build new_build (7, 100) (codes "new") nothing_runs
      watched refl refl refl not_failed ready

poll-confirmed_example :
    (new_build.hash ≡ some (codes "new")) × (new_build.hash ≡ some (codes "new"))
poll-confirmed_example =
    poll-confirmed update_config seen_once new_build new_build (7, 100) (codes "new") (codes "new")
      watched refl refl (λ _. refl) launched

-- The loop has the running build on record, and the file changes under a hash that fails.
abbrev at_rest : Updater
at_rest = record {
  last_seen_sha = some (codes "old");
  pending_since = none;
  last_stat = some (1, 50);
  smoke_failed_sha = none;
}

abbrev unread : Observation
unread = record new_build { hash = none }

changed : at_rest.last_stat ≢ some (7, 100)
changed e = ground arith

unread_build_ignored_example :
    All Quiet (polls update_config (unread ∷ new_build ∷ new_build ∷ []) at_rest)
unread_build_ignored_example =
    unread_build_ignored update_config at_rest unread (new_build ∷ new_build ∷ []) (7, 100) refl
      changed refl refl (refl, (refl, tt))

parse_failed_marker-marker_line_example :
    parse_failed_marker (marker_line (codes "ab") (codes "17")) ≡ some (codes "ab", 17)
unfolding is_whitespace
parse_failed_marker-marker_line_example =
    parse_failed_marker-marker_line 0x61 (codes "b") 0x31 (codes "7") (refl, (refl, tt))
      (refl, (refl, tt)) (omega arith)
