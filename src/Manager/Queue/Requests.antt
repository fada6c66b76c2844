-- ===== src/Manager/Queue/Requests.antt =====
-- What QueuedTransferRequest::validate accepts.
use Prim.Native.String.{String}
use networkcopy_speed.Common.{◌≡◌, ◌≢◌, ◌<◌, ◌≤◌, ◌↔◌, refl, inl, inr, false, arith, ok, Bool-cases}
use networkcopy_speed.Manager.Address.{same_address, same_address-eq}
use networkcopy_speed.Manager.Text.{Text, len, is_empty, trim}
use networkcopy_speed.Manager.Text.Trim.{IsBlank, trim-is_empty}
use networkcopy_speed.Manager.Queue.Request.{
  QueuedTransferRequest, QueuedTransferKind, fresh, resume, resumes_no_stream, max_queue_text_bytes,
  validate_request, validate_required_text, validate_optional_text,
}

-- A text with a character that is no white space.
abbrev pub HasContent : Text → Type 0
HasContent s = ¬ IsBlank s

abbrev pub AsksForStreams : QueuedTransferKind → Type 0
AsksForStreams fresh = Unit {0}
AsksForStreams (resume n) = 0 < n

-- A request that can be queued.
pub record RequestIsValid (r : QueuedTransferRequest) : Type 0 where
  pub different : r.sender_agent ≢ r.receiver_agent
  pub source_named : HasContent r.source_root
  pub source_fits : len r.source_root ≤ max_queue_text_bytes
  pub destination_named : HasContent r.destination_root
  pub destination_fits : len r.destination_root ≤ max_queue_text_bytes
  pub has_workers : 0 < r.worker_count
  pub calibrates : 0 < r.calibration_mib
  pub streams : AsksForStreams r.kind

validate_optional_text-ok :
    (s : Text) (d : String) → (validate_optional_text s d ≡ ok tt) ↔ (len s ≤ max_queue_text_bytes)
unfolding validate_optional_text
validate_optional_text-ok s d = (ground arith, ground arith)

validate_required_text-ok :
    (s : Text) (d : String)
    → (validate_required_text s d ≡ ok tt) ↔ (HasContent s × (len s ≤ max_queue_text_bytes))
unfolding validate_required_text
validate_required_text-ok s d = (sound, complete)
  where
    sound : validate_required_text s d ≡ ok tt → HasContent s × (len s ≤ max_queue_text_bytes)
    sound h = (
      λ blank. let e = (trim-is_empty s).1 blank in ground arith,
      (validate_optional_text-ok s d).0 (ground arith),
    )

    complete : HasContent s × (len s ≤ max_queue_text_bytes) → validate_required_text s d ≡ ok tt
    complete p = elim (Bool-cases (is_empty (trim s))) [
      | inl e ↦ absurd (p.0 ((trim-is_empty s).0 e))
      | inr e ↦ ground (arith, (validate_optional_text-ok s d).1 p.1)
    ]

AsksForStreams-test : (k : QueuedTransferKind) → (resumes_no_stream k ≡ false) ↔ AsksForStreams k
AsksForStreams-test fresh = (λ _. tt, λ _. refl)
AsksForStreams-test (resume n) = (ground arith, ground arith)

abbrev SourceIsOk : QueuedTransferRequest → Type 0
SourceIsOk r = validate_required_text r.source_root "queued source root" ≡ ok tt

abbrev DestinationIsOk : QueuedTransferRequest → Type 0
DestinationIsOk r = validate_required_text r.destination_root "queued destination root" ≡ ok tt

validate_request_sound : (r : QueuedTransferRequest) → validate_request r ≡ ok tt → RequestIsValid r
unfolding validate_request
validate_request_sound r h =
    let parts : (same_address r.sender_agent r.receiver_agent ≡ false)
        × SourceIsOk r
        × DestinationIsOk r
        × (0 < r.worker_count)
        × (0 < r.calibration_mib)
        × (resumes_no_stream r.kind ≡ false) =
      (ground arith) in
    let (named, fits) = (validate_required_text-ok r.source_root "queued source root").0 parts.1 in
    let (named', fits') =
      (validate_required_text-ok r.destination_root "queued destination root").0 parts.2 in
    record {
      different =
          λ e. let same = (same_address-eq r.sender_agent r.receiver_agent).1 e in cc (parts.0);
      source_named = named;
      source_fits = fits;
      destination_named = named';
      destination_fits = fits';
      has_workers = parts.3;
      calibrates = parts.4;
      streams = (AsksForStreams-test r.kind).0 parts.5;
    }

validate_request_complete :
    (r : QueuedTransferRequest) → RequestIsValid r → validate_request r ≡ ok tt
unfolding validate_request
validate_request_complete r v =
    let s : SourceIsOk r = (validate_required_text-ok _ _).1 (v.source_named, v.source_fits) in
    let d : DestinationIsOk r =
      (validate_required_text-ok _ _).1 (v.destination_named, v.destination_fits) in
    let k = (AsksForStreams-test r.kind).1 v.streams in
    elim (Bool-cases (same_address r.sender_agent r.receiver_agent)) [
      | inl e ↦ absurd (v.different ((same_address-eq r.sender_agent r.receiver_agent).0 e))
      | inr e ↦ ground (arith, s, d, k, v.has_workers, v.calibrates)
    ]

-- `validate` accepts exactly the requests between two different agents, with a source and a
-- destination that are not blank and have at most 64 KiB, at least one worker, a calibration size
-- above zero, and on a resume at least one stream.
pub validate_request-RequestIsValid :
    (r : QueuedTransferRequest) → (validate_request r ≡ ok tt) ↔ RequestIsValid r
validate_request-RequestIsValid r = (validate_request_sound r, validate_request_complete r)
