-- ===== src/Playback/Worker/Types.antt =====
-- The words of the worker: failures, errors, the published snapshots (backend/src/audio/playback:
-- snapshot.rs, service.rs, worker.rs, item.rs). Strings and the metadata of a track are carried and
-- compared only, so their types are parameters.
use nice_audio_player.Prelude.{ℕ, true, false, Bool}

pub data PlaybackFailureCode : Type 0 where
  no_output_device output_device_unavailable unsupported_output_configuration : PlaybackFailureCode
  output_stream_build_failed output_stream_start_failed output_stream_pause_failed :
      PlaybackFailureCode
  output_stream_resume_failed output_stream_runtime_failed completion_timing_failed :
      PlaybackFailureCode
  decode_failed sample_rate_conversion_failed : PlaybackFailureCode

pub data CommonError : Type 0 where
  track_not_found track_unavailable library_unavailable persistence_failed task_failed : CommonError

pub data PlaybackServiceError : Type 0 where
  common : CommonError → PlaybackServiceError
  output_error : PlaybackFailureCode → PlaybackServiceError
  source_error worker_unavailable superseded queue_item_not_found queue_busy : PlaybackServiceError
  invalid_volume invalid_device_id invalid_playback_state duration_unavailable seek_failed :
      PlaybackServiceError

pub data StartFailurePhase : Type 0 where
  source_open source_metadata source_worker decoder_open first_packet_decode : StartFailurePhase
  output_prepare processor_create prebuffer_decode prebuffer_conversion stream_start :
      StartFailurePhase

pub data FailureScope : Type 0 where
  item_scope output_scope : FailureScope

unfoldable pub scope : StartFailurePhase → FailureScope
scope source_worker = output_scope
scope output_prepare = output_scope
scope stream_start = output_scope
scope _ = item_scope

abbrev pub is_item_scope : FailureScope → Bool
is_item_scope item_scope = true
is_item_scope output_scope = false

pub record StartFailure : Type 0 where
  pub phase : StartFailurePhase
  pub code : PlaybackFailureCode

-- `StartFailure::item`.
abbrev pub item_failure : StartFailurePhase → StartFailure
item_failure phase = record { phase = phase; code = decode_failed }

abbrev service_error_of : StartFailurePhase → PlaybackFailureCode → PlaybackServiceError
service_error_of source_worker code = worker_unavailable
service_error_of _ code = output_error code

unfoldable pub service_error : StartFailure → PlaybackServiceError
service_error f = service_error_of f.phase f.code

pub data AudioOutputError : Type 0 where
  no_device configuration_query_failed unsupported_configuration stream_build_failed :
      AudioOutputError
  stream_configuration_unsupported stream_start_failed stream_pause_failed : AudioOutputError
  stream_resume_failed device_unavailable : AudioOutputError

unfoldable pub output_failure_code : AudioOutputError → PlaybackFailureCode
output_failure_code no_device = no_output_device
output_failure_code unsupported_configuration = unsupported_output_configuration
output_failure_code configuration_query_failed = unsupported_output_configuration
output_failure_code stream_configuration_unsupported = unsupported_output_configuration
output_failure_code stream_build_failed = output_stream_build_failed
output_failure_code stream_start_failed = output_stream_start_failed
output_failure_code stream_pause_failed = output_stream_pause_failed
output_failure_code stream_resume_failed = output_stream_resume_failed
output_failure_code device_unavailable = output_device_unavailable

pub data DeviceResolutionError : Type 0 where
  no_default_output_device bad_device_id resolved_unavailable : DeviceResolutionError

unfoldable pub resolution_error : DeviceResolutionError → PlaybackServiceError
resolution_error bad_device_id = invalid_device_id
resolution_error _ = output_error output_device_unavailable

pub data PipelineError : Type 0 where
  open_failed spec_changed first_packet_failed seek_position_failed processor_failed : PipelineError
  prepare_failed : AudioOutputError → PipelineError

-- `start_failure` and `seek_error`, what an error of the pipeline is for a start and for a seek.
unfoldable pub start_failure : PipelineError → StartFailure
start_failure open_failed = item_failure decoder_open
start_failure (prepare_failed e) = record { phase = output_prepare; code = output_failure_code e }
start_failure processor_failed = record {
  phase = processor_create;
  code = sample_rate_conversion_failed;
}
start_failure _ = item_failure first_packet_decode

unfoldable pub seek_error : PipelineError → PlaybackServiceError
seek_error seek_position_failed = seek_failed
seek_error (prepare_failed e) = output_error (output_failure_code e)
seek_error processor_failed = output_error sample_rate_conversion_failed
seek_error _ = output_error decode_failed

pub data StreamFailureKind : Type 0 where
  device_changed device_lost runtime_failed timing_failed : StreamFailureKind

pub data StreamSignalAction : Type 0 where
  refresh_default_device_action preserve_playback : StreamSignalAction
  fail_action : PlaybackFailureCode → StreamSignalAction

pub data CompressedSourceError : Type 0 where
  load_was_cancelled file_open_failed file_metadata_failed : CompressedSourceError

pub data SessionStartedBy : Type 0 where
  by_next by_previous by_auto by_jump : SessionStartedBy

pub data PipelineOwner : Type 0 where
  owned_by_start owned_by_active owned_by_seek owned_by_prefetch gone : PipelineOwner

pub record Versioned (A : Type 0) : Type 0 where
  pub revision : ℕ
  pub value : A

pub data AudioOutputSelection (Text : Type 0) : Type 0 where
  system_default : AudioOutputSelection Text
  device : Text → AudioOutputSelection Text

unfoldable pub stream_signal_action :
    {Text : Type 0} → AudioOutputSelection Text → StreamFailureKind → StreamSignalAction
stream_signal_action system_default device_changed = refresh_default_device_action
stream_signal_action (device id) device_changed = preserve_playback
stream_signal_action selection device_lost = fail_action output_device_unavailable
stream_signal_action selection runtime_failed = fail_action output_stream_runtime_failed
stream_signal_action selection timing_failed = fail_action completion_timing_failed
