-- ===== src/Usage.antt =====
-- usage.go and conversation.go: the token counts of modality calls and of conversations.
-- Durations and costs are float64 values, and not followed.
pub mod Totals
use rho_llm.Base.{
  Bool, ◌&&◌, ℤ, pos, negsuc, ◌+ℤ◌, ◌-ℤ◌, ltb_ℤ, if◌then◌else◌, List, [], ◌∷◌, ℕ, suc, ◌-◌,
}
use rho_llm.Clock.{max_int64}

-- An int is 64 bits wide, and its addition wraps around.
abbrev pub two_64 : ℤ
two_64 = pos 18446744073709551616

abbrev pub min_int64 : ℤ
min_int64 = negsuc 9223372036854775807

abbrev pub wrap_int64 : ℤ → ℤ
wrap_int64 x =
    if ltb_ℤ (pos max_int64) x then x -ℤ two_64 else if ltb_ℤ x min_int64 then x +ℤ two_64 else x

unfoldable pub saturating_add : ℤ → ℤ → ℤ
saturating_add a b =
    if ltb_ℤ (pos 0) b && ltb_ℤ (wrap_int64 (pos max_int64 -ℤ b)) a
    then pos max_int64
    else wrap_int64 (a +ℤ b)

-- ModalityUsage, less the audio seconds.
pub record ModalityUsage : Type 0 where
  pub input_tokens : ℤ
  pub output_tokens : ℤ
  pub audio_input_tokens : ℤ
  pub cache_read_tokens : ℤ

abbrev pub no_usage : ModalityUsage
no_usage = record {
  input_tokens = pos 0;
  output_tokens = pos 0;
  audio_input_tokens = pos 0;
  cache_read_tokens = pos 0;
}

abbrev pub non_neg : ℤ → ℤ
non_neg n = if ltb_ℤ n (pos 0) then pos 0 else n

unfoldable pub sanitize_modality_usage : ModalityUsage → ModalityUsage
sanitize_modality_usage u =
    let input = non_neg u.input_tokens in
    let audio = non_neg u.audio_input_tokens in
    record {
      input_tokens = input;
      output_tokens = non_neg u.output_tokens;
      audio_input_tokens = if ltb_ℤ input audio then input else audio;
      cache_read_tokens = non_neg u.cache_read_tokens;
    }

-- ReportModalityUsage, under a context that carries a recorder.
unfoldable pub report_modality_usage : ModalityUsage → ModalityUsage → ModalityUsage
report_modality_usage recorder usage =
    let u = sanitize_modality_usage usage in
    record {
      input_tokens = saturating_add recorder.input_tokens u.input_tokens;
      output_tokens = saturating_add recorder.output_tokens u.output_tokens;
      audio_input_tokens = saturating_add recorder.audio_input_tokens u.audio_input_tokens;
      cache_read_tokens = saturating_add recorder.cache_read_tokens u.cache_read_tokens;
    }

-- What a snapshot holds after the reports of one operation.
unfoldable pub recorded : ModalityUsage → List ModalityUsage → ModalityUsage
recorded recorder [] = recorder
recorded recorder (u ∷ reports) = recorded (report_modality_usage recorder u) reports
