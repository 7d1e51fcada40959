-- ===== src/Execution/Policy/Laws.antt =====
-- When internal/execution/policy.go lets a request execute, and what its confirmation binds.
use mcp_server_for_mysql.Base.{
  ℕ, ◌+◌, Bool, true, false, not, List, [], ◌∷◌, ◌≢◌, ◌↔◌, ◌⊎◌, inl, inr, Option, none, some, ◌≡◌,
  refl, sym, ap, ◌∙◌, arith, if◌then◌else◌, Bool-cases, Option-cases, Bytes, equal_iff, trim_space,
  Result, ok, err, >>=-eq-ok, Returns, Returns-bind, Returns-ok,
}
use mcp_server_for_mysql.Sqlguard.Model.{Plan, Statement, low_risk, risk_for_atomic_batches}
use mcp_server_for_mysql.Sqlguard.Splitter.{is_nil}
use mcp_server_for_mysql.Execution.Model.{
  Mode, quick_mode, strict_mode, other_mode, Confirmation, execute_now, Intent, Preview,
}
use mcp_server_for_mysql.Execution.Preview.{
  Envelope, PreviewError, canonical_from, canonical_plan_sql, build_envelope, encode, preview_of,
  build_preview, is_known_risk, check, no_statement, source_required, tool_required, invalid_risk,
  not_encodable,
}
use mcp_server_for_mysql.Execution.Policy.{requires_confirmation, decide_preview, authorize}

-- The caller confirms, and presents the hash of this preview.
abbrev pub IsConfirmed : Preview → Confirmation → Type 0
IsConfirmed p c = (c.confirm ≡ true) × (c.preview_hash ≢ []) × (c.preview_hash ≡ p.preview_hash)

is_nil_iff : (s : Bytes) → (is_nil s ≡ false) ↔ (s ≢ [])
is_nil_iff [] = (λ h. cc, λ h. absurd (h refl))
is_nil_iff (x ∷ s) = (λ h. ground arith, λ h. refl)

decide-executes :
    (mode : Mode) (p : Preview) (c : Confirmation)
    → (decide_preview mode p c ≡ execute_now)
      ↔ (IsConfirmed p c ⊎ ((c.confirm ≡ false) × (requires_confirmation mode p ≡ false)))
unfolding decide_preview
decide-executes mode p c = (to, from)
  where
    to :
        decide_preview mode p c ≡ execute_now
        → IsConfirmed p c ⊎ ((c.confirm ≡ false) × (requires_confirmation mode p ≡ false))
    to h = ground (arith, is_nil_iff c.preview_hash, equal_iff c.preview_hash p.preview_hash)

    from :
        IsConfirmed p c ⊎ ((c.confirm ≡ false) × (requires_confirmation mode p ≡ false))
        → decide_preview mode p c ≡ execute_now
    from h = ground (arith, is_nil_iff c.preview_hash, equal_iff c.preview_hash p.preview_hash)

canonical_from-some :
    (i : ℕ) (ss : List Statement)
    → ss ≢ []
    → Returns (λ sql. is_nil sql ≡ false) (canonical_from i ss)
unfolding canonical_from
canonical_from-some i [] ne = absurd (ne refl)
canonical_from-some i (s ∷ ss) ne = elim (Bool-cases (is_nil (trim_space s.normalized_sql))) [
  | inl e ↦ rw e tt
  | inr e ↦ rw e (
      Returns-bind (λ _. Unit) (λ sql. is_nil sql ≡ false) (canonical_from (i + 1) ss) _
        (any (canonical_from (i + 1) ss)) (λ a _. refl))
]
  where
    any : (r : Result PreviewError (List Bytes)) → Returns (λ _. Unit) r
    any (ok a) = tt
    any (err e) = tt

check-true : (b : Bool) (e : PreviewError) → Returns (λ _. b ≡ true) (check b e)
check-true true e = refl
check-true false e = tt

canonical_plan_sql-some :
    (plan : Plan) → Returns (λ sql. is_nil sql ≡ false) (canonical_plan_sql plan)
unfolding canonical_plan_sql
canonical_plan_sql-some plan = by_statements plan.statements
  where
    by_statements :
        (ss : List Statement)
        → Returns
            (λ sql. is_nil sql ≡ false)
            (if is_nil ss then err no_statement else canonical_from 0 ss)
    by_statements [] = tt
    by_statements (s ∷ ss) = canonical_from-some 0 (s ∷ ss) (λ e. cc)

-- What an envelope holds of its intent.
abbrev IsEnvelope : Intent → Envelope → Type 0
IsEnvelope intent e =
    (is_nil e.sql ≡ false)
    × (e.risk ≡ risk_for_atomic_batches intent.plan intent.atomic)
    × (is_known_risk e.risk ≡ true)

build_envelope-IsEnvelope : (intent : Intent) → Returns (IsEnvelope intent) (build_envelope intent)
unfolding build_envelope
build_envelope-IsEnvelope intent =
    let risk = risk_for_atomic_batches intent.plan intent.atomic in
    let has_source = not (is_nil (trim_space intent.source_id)) in
    let has_tool = not (is_nil (trim_space intent.tool)) in
    Returns-bind (λ sql. is_nil sql ≡ false) (IsEnvelope intent) (canonical_plan_sql intent.plan) _
      (canonical_plan_sql-some intent.plan)
      λ sql n.
        Returns-bind (λ _. has_source ≡ true) (IsEnvelope intent) (check has_source source_required)
          _ (check-true has_source source_required)
          λ _ _.
            Returns-bind (λ _. has_tool ≡ true) (IsEnvelope intent) (check has_tool tool_required) _
              (check-true has_tool tool_required)
              λ _ _.
                Returns-bind (λ _. is_known_risk risk ≡ true) (IsEnvelope intent)
                  (check (is_known_risk risk) invalid_risk) _
                  (check-true (is_known_risk risk) invalid_risk) λ _ known. (n, refl, known)

module _ (digest : Envelope → Option Bytes) where
  encode-ok :
      (e : Envelope) {p : Preview}
      → encode digest e ≡ ok p
      → (digest e ≡ some p.preview_hash) × (p ≡ preview_of e p.preview_hash)
  encode-ok e {p} h = elim (Option-cases (digest e)) [
    | inl n ↦ cc (not_encoded n)
    | inr (hash, s) ↦ (ground (arith, encoded hash s), ground (arith, encoded hash s))
  ]
    where
      not_encoded : digest e ≡ none → encode digest e ≡ err not_encodable
      not_encoded n = rw (n, encode)

      encoded : (hash : Bytes) → digest e ≡ some hash → encode digest e ≡ ok (preview_of e hash)
      encoded hash s = rw (s, encode)

  -- A preview is that of the intent's envelope, with its digest.
  pub build_preview-ok :
      (intent : Intent) {p : Preview}
      → build_preview digest intent ≡ ok p
      → (e : Envelope) × (build_envelope intent ≡ ok e)
        × (digest e ≡ some p.preview_hash)
        × (p ≡ preview_of e p.preview_hash)
  unfolding build_preview
  build_preview-ok intent h =
      let (e, built, encoded) = >>=-eq-ok (build_envelope intent) (encode digest) h in
      let (hash, same) = encode-ok e encoded in (e, built, hash, same)

  authorize-known :
      (mode : Mode) (intent : Intent) (c : Confirmation)
      → (authorize digest mode intent c).decision ≡ execute_now
      → (p : Preview) × (build_preview digest intent ≡ ok p)
        × (decide_preview mode p c ≡ execute_now)
        × ((mode ≡ quick_mode) ⊎ (mode ≡ strict_mode))
  unfolding authorize
  authorize-known quick_mode intent c h = ground arith
  authorize-known strict_mode intent c h = ground arith
  authorize-known (other_mode m) intent c h = cc

  low-risk :
      (mode : Mode) (p : Preview)
      → is_nil p.sql ≡ false
      → is_known_risk p.risk ≡ true
      → (mode ≡ quick_mode) ⊎ (mode ≡ strict_mode)
      → requires_confirmation mode p ≡ false
      → (mode ≡ quick_mode) × (p.risk ≡ low_risk)
  unfolding requires_confirmation
  low-risk mode p n k m h = ground arith

  -- A request that is not confirmed executes only in quick mode, and only if its risk for its
  -- atomicity is low.
  pub unconfirmed_execution :
      (mode : Mode) (intent : Intent) (c : Confirmation)
      → c.confirm ≡ false
      → (authorize digest mode intent c).decision ≡ execute_now
      → (mode ≡ quick_mode) × (risk_for_atomic_batches intent.plan intent.atomic ≡ low_risk)
  unconfirmed_execution mode intent c f h =
      let (p, built, decided, known) = authorize-known mode intent c h in
      let (e, envelope, _, same) = build_preview-ok intent built in
      let (n, risk, k) =
        Returns-ok (IsEnvelope intent) (build_envelope intent) (build_envelope-IsEnvelope intent)
          envelope in
      let low : (mode ≡ quick_mode) × (p.risk ≡ low_risk) =
        elim ((decide-executes mode p c).0 decided) [
          | inl sure ↦ cc (sure.0)
          | inr (_, free) ↦
              low-risk mode p (ap (λ q. is_nil q.sql) same ∙ n)
                (ap (λ q. is_known_risk q.risk) same ∙ k) known free
        ] in
      (low.0, sym risk ∙ sym (ap (λ q. q.risk) same) ∙ low.1)

  -- A confirmed request executes only with the digest of its own envelope: where the hash is that
  -- of a reviewed preview and the digest tells the two envelopes apart, both are the same in
  -- source, tool, SQL, parameters, risk and atomicity.
  pub confirmation_binds :
      (mode : Mode) (intent reviewed : Intent) (c : Confirmation) (p : Preview) (e e' : Envelope)
      → build_envelope intent ≡ ok e
      → build_envelope reviewed ≡ ok e'
      → build_preview digest reviewed ≡ ok p
      → c.preview_hash ≡ p.preview_hash
      → c.confirm ≡ true
      → (digest e ≡ digest e' → e ≡ e')
      → (authorize digest mode intent c).decision ≡ execute_now
      → e ≡ e'
  confirmation_binds mode intent reviewed c p e e' be be' bp hash sure injective h =
      let (q, built, decided, known) = authorize-known mode intent c h in
      let (e₁, b₁, d₁, _) = build_preview-ok intent built in
      let (e₂, b₂, d₂, _) = build_preview-ok reviewed bp in
      let matches : c.preview_hash ≡ q.preview_hash = elim ((decide-executes mode q c).0 decided) [
        | inl yes_sure ↦ yes_sure.2
        | inr no_sure ↦ cc (no_sure.0)
      ] in
      let same : e ≡ e₁ = cc in
      let same' : e' ≡ e₂ = cc in
      injective
        (ap digest same ∙ d₁ ∙ ap some (sym matches ∙ hash) ∙ sym d₂ ∙ ap digest (sym same'))
