-- ===== src/Demo/Delay.antt =====
-- GetFileSpecificDelay of demo/handler.h: a content may say how long its analysis takes.
use content_analysis_sdk.Prelude.{
  ℕ, ◌^◌, ◌<◌, false, Option, none, some, [], ◌++◌, ◌≡◌, arith, Text, codes, drop, length, decimal,
  scan_number, starts_with_digit, unsigned_long, scan_number-decimal, ltb, if◌then◌else◌,
  get_or_default, contains, find, find-first,
}
use content_analysis_sdk.Proto.{ContentAnalysisRequest, text_content, file_path, print_data}
use content_analysis_sdk.Demo.Handler.{read_content_from_file}

abbrev pub keyword : Text
keyword = codes "delay="

module _ (out_of_range : Text → ℕ) where
  -- The conversion `%lu`, at a delay that keeps its value where no number is found. The C standard
  -- leaves open what a number out of range becomes; `out_of_range` is that.
  scan_delay : Text → ℕ → ℕ
  scan_delay text delay = elim (scan_number text) [
    | none ↦ delay
    | some (minus, n) ↦ if ltb n (2 ^ 32) then unsigned_long (minus, n) else out_of_range text
  ]

  pub get_file_specific_delay : Text → ℕ → ℕ
  unfolding scan_delay
  get_file_specific_delay content delay = elim (find content keyword) [
    | none ↦ delay
    | some text ↦ scan_delay (drop (length keyword) text) delay
  ]

  -- The delay that AnalyzeContent keeps to before the response, with the delay of the handler.
  pub delay_of : (Text → Option Text) → ℕ → ContentAnalysisRequest → ℕ
  delay_of files delay request = elim request.content_data [
    | none ↦ delay
    | some (text_content text) ↦ get_file_specific_delay text delay
    | some (file_path path) ↦ elim (read_content_from_file (files path)) [
      | none ↦ delay
      | some none ↦ delay
      | some (some content) ↦ get_file_specific_delay content delay
    ]
    | some (print_data data') ↦
        get_file_specific_delay
          (elim request.request_data [ none ↦ [] | some meta ↦ get_or_default meta.url [] ]) delay
  ]

  -- A content with "delay=" and a number of 32 bits behind it sets the delay to that number, if no
  -- earlier "delay=" stands in it and no further digit follows; so GetFileSpecificDelay reads back
  -- what was written as such a delay, whatever surrounds it.
  pub get_file_specific_delay-decimal :
      (before after : Text) (n delay : ℕ)
      → n < 2 ^ 32
      → starts_with_digit after ≡ false
      → contains (before ++ codes "delay") keyword ≡ false
      → get_file_specific_delay (before ++ (keyword ++ (decimal n ++ after))) delay ≡ n
  unfolding get_file_specific_delay
  get_file_specific_delay-decimal before after n delay small stop first = ground (
    arith,
    find-first (codes "delay") (decimal n ++ after) b'=' before first,
    scan_number-decimal n after stop,
  )
