-- ===== src/Tests/Codec.antt =====
-- An encoding of times and evidence that reads back what it wrote, for the runs of the tests: the
-- texts of the evidence follow one another, their codes moved up by one, each ended by a 0.
use setpoint_ci_mirror.Base.{ℕ, zero, suc, ◌≡◌, refl, ap, ◌∙◌, Option, none, some, List, [], ◌∷◌}
use setpoint_ci_mirror.Base.Text.{Text}
use setpoint_ci_mirror.Operation.Definition.{EvidenceRef}
use setpoint_ci_mirror.Storage.Runs.Journal.{Codec, CodecLaws}

abbrev write : Text → Text → Text
write [] rest = 0 ∷ rest
write (c ∷ s) rest = suc c ∷ write s rest

abbrev push : ℕ → List Text → List Text
push c [] = (c ∷ []) ∷ []
push c (t ∷ ts) = (c ∷ t) ∷ ts

abbrev split : Text → List Text
split [] = []
split (zero ∷ rest) = [] ∷ split rest
split (suc c ∷ rest) = push c (split rest)

split-write : (s rest : Text) → split (write s rest) ≡ s ∷ split rest
split-write [] rest = refl
split-write (c ∷ s) rest = ap (push c) (split-write s rest)

abbrev marshal_evidence : List EvidenceRef → Text
marshal_evidence [] = []
marshal_evidence (e ∷ es) = write e.id (write e.kind (write e.sha256 (marshal_evidence es)))

abbrev with_ref : EvidenceRef → Option (List EvidenceRef) → Option (List EvidenceRef)
with_ref e none = none
with_ref e (some es) = some (e ∷ es)

abbrev refs_of : List Text → Option (List EvidenceRef)
refs_of [] = some []
refs_of (a ∷ []) = none
refs_of (a ∷ b ∷ []) = none
refs_of (a ∷ b ∷ c ∷ rest) = with_ref (record { id = a; kind = b; sha256 = c }) (refs_of rest)

evidence_back : (es : List EvidenceRef) → refs_of (split (marshal_evidence es)) ≡ some es
evidence_back [] = refl
evidence_back (e ∷ es) =
    ap refs_of (split-write e.id (write e.kind (write e.sha256 (marshal_evidence es))))
    ∙ ap (λ ts. refs_of (e.id ∷ ts)) (split-write e.kind (write e.sha256 (marshal_evidence es)))
    ∙ ap (λ ts. refs_of (e.id ∷ e.kind ∷ ts)) (split-write e.sha256 (marshal_evidence es))
    ∙ ap (with_ref e) (evidence_back es)

abbrev time_of : Text → Option ℕ
time_of [] = none
time_of (t ∷ rest) = some t

abbrev pub codec : Codec
codec = record {
  format_time = λ t. t ∷ [];
  parse_time = time_of;
  marshal = marshal_evidence;
  unmarshal = λ text. refs_of (split text);
}

pub codec-CodecLaws : CodecLaws codec
codec-CodecLaws = record { time_read = λ t. refl; evidence_read = evidence_back }
