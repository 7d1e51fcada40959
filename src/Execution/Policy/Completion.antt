-- ===== src/Execution/Policy/Completion.antt =====
-- What a caller reaches that repeats a request with the hash of its preview, of
-- internal/execution/policy.go.
use mcp_server_for_mysql.Base.{
  true, false, Option, none, some, ◌≡◌, refl, ap, ◌∙◌, Bytes, equal_refl, Result, ok, err,
}
use mcp_server_for_mysql.Sqlguard.Splitter.{is_nil}
use mcp_server_for_mysql.Execution.Model.{
  Mode, quick_mode, strict_mode, other_mode, Confirmation, execute_now, Intent, Preview,
}
use mcp_server_for_mysql.Execution.Preview.{Envelope, PreviewError, build_preview}
use mcp_server_for_mysql.Execution.Policy.Laws.{build_preview-ok}
use mcp_server_for_mysql.Execution.Policy.{
  authorize, authorize_known, decide_preview, Authorization, no_preview,
}

abbrev pub confirm_with : Bytes → Confirmation
confirm_with hash = record { confirm = true; preview_hash = hash }

-- The decision to execute, without an error.
abbrev pub IsExecuted : Authorization → Type 0
IsExecuted a = (a.decision ≡ execute_now) × (a.error ≡ none)

module _ (digest : Envelope → Option Bytes) where
  -- The digest of every envelope has a byte or more.
  abbrev pub IsVisibleDigest : Type 0
  IsVisibleDigest = (e : Envelope) (hash : Bytes) → digest e ≡ some hash → is_nil hash ≡ false

  build_preview-hash :
      IsVisibleDigest
      → (intent : Intent) {p : Preview} → build_preview digest intent ≡ ok p
      → is_nil p.preview_hash ≡ false
  build_preview-hash v intent h =
      let (e, _, hashed, _) = build_preview-ok digest intent h in v e _ hashed

  decide_preview-confirmed :
      (mode : Mode) (p : Preview)
      → is_nil p.preview_hash ≡ false
      → decide_preview mode p (confirm_with p.preview_hash) ≡ execute_now
  unfolding decide_preview
  decide_preview-confirmed mode p h = rw (h, equal_refl p.preview_hash) refl

  known_completes :
      IsVisibleDigest
      → (mode : Mode) (intent : Intent) (c : Confirmation) (r : Result PreviewError Preview)
      → build_preview digest intent ≡ r
      → (authorize_known digest mode intent c).error ≡ none
      → IsExecuted (
          authorize_known digest mode intent
            (confirm_with (authorize_known digest mode intent c).preview.preview_hash))
  known_completes v mode intent c (err e) b h = cc (refused b)
    where
      refused :
          {e : PreviewError}
          → build_preview digest intent ≡ err e
          → (authorize_known digest mode intent c).error ≡ some (no_preview e)
      refused b = rw (b, authorize_known) refl
  known_completes v mode intent c (ok p) b h =
      let same : (authorize_known digest mode intent c).preview ≡ p =
        rw (b, authorize_known) refl in
      (
        ap
              (λ (q : Preview).
                (authorize_known digest mode intent (confirm_with q.preview_hash)).decision)
              same
            ∙ decided (confirm_with p.preview_hash) b
            ∙ decide_preview-confirmed mode p (build_preview-hash v intent b),
        without_error _ b,
      )
    where
      decided :
          {p : Preview} (c : Confirmation)
          → build_preview digest intent ≡ ok p
          → (authorize_known digest mode intent c).decision ≡ decide_preview mode p c
      decided c b = rw (b, authorize_known) refl

      without_error :
          {p : Preview} (c : Confirmation)
          → build_preview digest intent ≡ ok p
          → (authorize_known digest mode intent c).error ≡ none
      without_error c b = rw (b, authorize_known) refl

  -- A request that is not refused with an error executes when it is repeated, in any mode, with a
  -- confirmation that has the hash of the preview returned for it.
  pub authorize_completes :
      IsVisibleDigest
      → (mode : Mode) (intent : Intent) (c : Confirmation)
      → (authorize digest mode intent c).error ≡ none
      → IsExecuted (
          authorize digest mode intent
            (confirm_with (authorize digest mode intent c).preview.preview_hash))
  unfolding authorize
  authorize_completes v quick_mode intent c h = known_completes v quick_mode intent c _ refl h
  authorize_completes v strict_mode intent c h = known_completes v strict_mode intent c _ refl h
  authorize_completes v (other_mode m) intent c h = cc
