-- ===== src/Api/Diags.antt =====
-- api/httpapi/diags.go: diagnostics as they are sent, and as the client reads them.
use func.Prelude.{
  String, ◌≡◌, refl, ap, Bool, true, false, Option, none, some, List, [], ◌∷◌, map, if◌then◌else◌,
}
use func.Validation.{ℤ}

-- hcl.DiagnosticSeverity; `invalid` is its zero value.
pub data Severity : Type 0 where
  invalid error warning : Severity

-- hcl.Pos
pub record Pos : Type 0 where
  pub line : ℤ
  pub column : ℤ
  pub byte : ℤ

-- hcl.Range
pub record Range : Type 0 where
  pub filename : String
  pub start : Pos
  pub end : Pos

-- hcl.Diagnostic, as far as it is sent; `none` is a nil range.
pub record HclDiagnostic : Type 0 where
  pub severity : Severity
  pub summary : String
  pub detail : String
  pub subject : Option Range
  pub context : Option Range

-- pos, diagrange and diagnostic, with the fields as they are sent
pub record SentPos : Type 0 where
  pub line : ℤ
  pub col : ℤ
  pub byte : ℤ

pub record SentRange : Type 0 where
  pub file : String
  pub start : SentPos
  pub end : SentPos

pub record SentDiagnostic : Type 0 where
  pub err : Bool
  pub sum : String
  pub det : String
  pub sub : Option SentRange
  pub ctx : Option SentRange

-- d.Severity == hcl.DiagError
unfoldable pub is_diag_error : Severity → Bool
is_diag_error error = true
is_diag_error s = false

unfoldable pub pos_from_hcl : Pos → SentPos
pos_from_hcl p = record { line = p.line; col = p.column; byte = p.byte }

unfoldable pub range_from_hcl : Option Range → Option SentRange
range_from_hcl none = none
range_from_hcl (some r) =
    some (record { file = r.filename; start = pos_from_hcl r.start; end = pos_from_hcl r.end })

unfoldable pub diag_from_hcl : HclDiagnostic → SentDiagnostic
diag_from_hcl d = record {
  err = is_diag_error d.severity;
  sum = d.summary;
  det = d.detail;
  sub = range_from_hcl d.subject;
  ctx = range_from_hcl d.context;
}

-- diagsFromHCL
unfoldable pub diags_from_hcl : List HclDiagnostic → List SentDiagnostic
diags_from_hcl = map diag_from_hcl

unfoldable pub pos_to_hcl : SentPos → Pos
pos_to_hcl p = record { line = p.line; column = p.col; byte = p.byte }

unfoldable pub range_to_hcl : Option SentRange → Option Range
range_to_hcl none = none
range_to_hcl (some r) =
    some (record { filename = r.file; start = pos_to_hcl r.start; end = pos_to_hcl r.end })

unfoldable pub diag_to_hcl : SentDiagnostic → HclDiagnostic
diag_to_hcl d = record {
  severity = if d.err then error else warning;
  summary = d.sum;
  detail = d.det;
  subject = range_to_hcl d.sub;
  context = range_to_hcl d.ctx;
}

-- diagsToHCL
unfoldable pub diags_to_hcl : List SentDiagnostic → List HclDiagnostic
diags_to_hcl = map diag_to_hcl

-- An error is received as an error, a warning as a warning, and the invalid severity as a warning.
abbrev received_severity : Severity → Severity
received_severity error = error
received_severity warning = warning
received_severity invalid = warning

abbrev pub as_received : HclDiagnostic → HclDiagnostic
as_received d = record d { severity = received_severity d.severity }

severity-round : (s : Severity) → (if is_diag_error s then error else warning) ≡ received_severity s
unfolding is_diag_error
severity-round error = refl
severity-round warning = refl
severity-round invalid = refl

range-round : (r : Option Range) → range_to_hcl (range_from_hcl r) ≡ r
unfolding range_to_hcl range_from_hcl pos_to_hcl pos_from_hcl
range-round none = refl
range-round (some r) = refl

-- What the client reads is what the server sent, an error as an error and a warning as a warning, but
-- with the invalid severity as a warning.
pub diags_to_hcl-diags_from_hcl :
    (ds : List HclDiagnostic) → diags_to_hcl (diags_from_hcl ds) ≡ map as_received ds
unfolding diags_to_hcl diags_from_hcl diag_to_hcl diag_from_hcl
diags_to_hcl-diags_from_hcl [] = refl
diags_to_hcl-diags_from_hcl (d ∷ ds) =
    rw (range-round d.subject, range-round d.context, severity-round d.severity)
      (ap (λ l. as_received d ∷ l) (diags_to_hcl-diags_from_hcl ds))
