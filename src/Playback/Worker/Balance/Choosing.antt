-- ===== src/Playback/Worker/Balance/Choosing.antt =====
-- What the commands on the output, the volume and the queue owe
-- (backend/src/audio/playback/worker.rs, worker/start.rs, worker/transport.rs,
-- worker/preferences.rs, worker/publish.rs).
use nice_audio_player.Playback.Worker.Balance.Commanding.{
  answer_with-Settled, playback_versioned-Settled,
}
use nice_audio_player.Playback.Worker.Balance.Starting.{respond-Settled}
use nice_audio_player.Playback.Worker.Balance.Running.{publish_queue-Settled}
use nice_audio_player.Playback.Worker.Balance.Reading.{publish_state-Settled}
use nice_audio_player.Playback.Worker.State.{
  loading, refused, idle, loaded, gain_stored, Answer, failed, Loaded, Transport,
}
use nice_audio_player.Playback.Worker.Types.{
  resolution_error, invalid_playback_state, system_default, device, DeviceResolutionError,
  AudioOutputSelection,
}
use nice_audio_player.Playback.Worker.Tracks.{emit, W}
use nice_audio_player.Playback.Worker.Commands.{
  effective_gain, volume_changed, restart_on, set_volume, change_from,
}
use nice_audio_player.Playback.Worker.Publish.{
  position_ms, playback_versioned, publish_queue, preferences_changed, queue_changed,
}
use nice_audio_player.Playback.Worker.Transport.{
  shown, is_loading, set_transport, resolve_selected, same_selection, commit_selection,
  selection_published, set_output_selection,
}
use nice_audio_player.Playback.Worker.Balance.{held, reply_token, Settled, Token}
use nice_audio_player.Playback.Worker.Outside.{
  good, bad, AudioOutputDeviceIdentity, Answered, Outside, Words,
}
use nice_audio_player.Prelude.{
  ◌≡◌, ℕ, true, some, refl, not, none, is_some, if◌then◌else◌, if-cases, false, arith, ap, Option,
  Bool,
}
use nice_audio_player.Playback.Worker.Balance.Failing.{begin_start-Settled}

module _ {words : Words} (weigh : Token → ℕ) {o : Outside words} where
  open words use {Text, Volume}

  pub selection_published-Settled :
      (t : Transport words) (unchanged : Bool) (w : W o) (in_hand : ℕ)
      → w.transport ≡ t
      → Settled weigh o in_hand w
      → Settled weigh o in_hand (selection_published o t unchanged w).1
  unfolding selection_published
  selection_published-Settled (failed id code skipping) unchanged w in_hand at s =
      publish_state-Settled weigh (set_transport o idle w) in_hand
        ((omega (arith, s.0.0, ap (held weigh) at), s.0.1), tt)
  selection_published-Settled idle true w in_hand at s =
      playback_versioned-Settled weigh w in_hand s
  selection_published-Settled idle false w in_hand at s = publish_state-Settled weigh w in_hand s
  selection_published-Settled (loading request stage) true w in_hand at s =
      playback_versioned-Settled weigh w in_hand s
  selection_published-Settled (loading request stage) false w in_hand at s =
      publish_state-Settled weigh w in_hand s
  selection_published-Settled (loaded l) true w in_hand at s =
      playback_versioned-Settled weigh w in_hand s
  selection_published-Settled (loaded l) false w in_hand at s =
      publish_state-Settled weigh w in_hand s

  pub commit_selection-Settled :
      (selection : AudioOutputSelection Text) (e : Option DeviceResolutionError) (w : W o)
      → (in_hand : ℕ) → Settled weigh o in_hand w
      → Settled weigh o in_hand (commit_selection o selection e w).1
  unfolding commit_selection preferences_changed
  commit_selection-Settled selection (some e) w in_hand s = s
  commit_selection-Settled selection none w in_hand s =
      let unchanged = same_selection o w.output_selection selection in
      let w₁ = record w { output_selection = selection } in
      let w₂ = if unchanged then w₁ else preferences_changed o w₁ in
      selection_published-Settled w₂.transport unchanged w₂ in_hand refl
        (if-cases (Settled weigh o in_hand) unchanged _ _ (λ _. s) (λ _. s))

  pub set_output_selection-Settled :
      (selection : AudioOutputSelection Text) (w : W o) (in_hand : ℕ)
      → Settled weigh o in_hand w
      → Settled weigh o in_hand (set_output_selection o selection w).1
  unfolding set_output_selection
  set_output_selection-Settled selection w in_hand s =
      let (failure, w₁) = resolve_selected o selection w in
      if-cases (λ (p : Answer words × W o). Settled weigh o in_hand p.1) (is_loading o w.transport)
        _ _ (λ _. s)
        (λ _. commit_selection-Settled selection failure w₁ in_hand (resolved selection))
    where
      resolved :
          (selection : AudioOutputSelection Text)
          → Settled weigh o in_hand (resolve_selected o selection w).1
      resolved system_default = s
      resolved (device id) = s

  pub restart_on-Settled :
      (l : Loaded words) (selection : AudioOutputSelection Text) (reply : ℕ)
      → (a : Answered words (AudioOutputDeviceIdentity words) DeviceResolutionError) (w : W o)
      → Settled weigh o (weigh (reply_token reply)) w
      → Settled weigh o 0 (restart_on o l selection reply a w)
  unfolding restart_on
  restart_on-Settled l selection reply (bad e) w s =
      respond-Settled weigh (some reply) (refused (resolution_error e)) w s
  restart_on-Settled l selection reply (good identity) w s =
      begin_start-Settled weigh
        (record {
          id = l.id;
          item = l.item;
          started_by = l.started_by;
          responder = some reply;
          start_paused = l.paused;
          resume_at_ms = some (position_ms l);
          selection = some selection;
        })
        w s

  pub change_from-Settled :
      (t : Transport words) (selection : AudioOutputSelection Text) (reply : ℕ) (w : W o)
      → Settled weigh o (weigh (reply_token reply)) w
      → Settled weigh o 0 (change_from o t selection reply w)
  unfolding change_from
  change_from-Settled (loaded l) selection reply w s =
      let (answer, world) = Outside.resolve_device o selection w.world in
      if-cases (Settled weigh o 0) (is_some l.seek) _ _
        (λ _. respond-Settled weigh (some reply) (refused invalid_playback_state) w s)
        (λ _.
          if-cases (Settled weigh o 0) (same_selection o selection w.output_selection) _ _
            (λ _.
              answer_with-Settled weigh reply (shown o (playback_versioned o w))
                (playback_versioned-Settled weigh w _ s))
            (λ _. restart_on-Settled l selection reply answer (record w { world = world }) s))
  change_from-Settled idle selection reply w s =
      answer_with-Settled weigh reply (set_output_selection o selection w)
        (set_output_selection-Settled selection w _ s)
  change_from-Settled (loading request stage) selection reply w s =
      answer_with-Settled weigh reply (set_output_selection o selection w)
        (set_output_selection-Settled selection w _ s)
  change_from-Settled (failed id code skipping) selection reply w s =
      answer_with-Settled weigh reply (set_output_selection o selection w)
        (set_output_selection-Settled selection w _ s)

  pub volume_changed-Settled :
      (changed : Bool) (w : W o) (in_hand : ℕ)
      → Settled weigh o in_hand w
      → Settled weigh o in_hand (volume_changed o changed w).1
  unfolding volume_changed preferences_changed
  volume_changed-Settled changed w in_hand s =
      let w₁ = preferences_changed o (emit o (gain_stored (effective_gain o w.volume_state)) w) in
      if-cases (λ (p : Answer words × W o). Settled weigh o in_hand p.1) (not changed) _ _
        (λ _. playback_versioned-Settled weigh w in_hand s)
        (λ _. publish_state-Settled weigh w₁ in_hand s)

  pub set_volume-Settled :
      (volume : Volume) (w : W o) (in_hand : ℕ)
      → Settled weigh o in_hand w
      → Settled weigh o in_hand (set_volume o volume w).1
  unfolding set_volume
  set_volume-Settled volume w in_hand s =
      let v = record (w.volume_state) { volume = volume } in
      if-cases (λ (p : Answer words × W o). Settled weigh o in_hand p.1)
        (Words.in_range words volume) _ _
        (λ _.
          volume_changed-Settled (not (Words.same_volume words w.volume_state.volume volume))
            (record w { volume_state = v }) in_hand s)
        (λ _. s)

  pub queue_changed-Settled :
      (changed : Bool) (w : W o) (in_hand : ℕ)
      → Settled weigh o in_hand w
      → Settled weigh o in_hand (queue_changed o changed w).1
  unfolding queue_changed
  queue_changed-Settled true w in_hand s =
      publish_state-Settled weigh (publish_queue o w) in_hand
        (publish_queue-Settled weigh w in_hand s)
  queue_changed-Settled false w in_hand s = s
