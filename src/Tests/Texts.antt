-- ===== src/Tests/Texts.antt =====
-- The theorems on texts, settings, windows and probes at concrete inputs.
use recodarr.Prelude.Int.{negsuc, ℤ, pos}
use recodarr.Handbrake.Quoting.{split_shell_args-quote_args, quote_args}
use recodarr.Tests.{sample_job, sample_profile}
use recodarr.Handbrake.ShellSplit.{split_shell_args}
use recodarr.Probe.{Stream}
use recodarr.Worker.Filters.{evaluate_filters_iff, size_hit, evaluate_filters, is_skip}
use recodarr.Prelude.{ℕ, ◌≡◌, ◌≢◌, ap, false, ◌||◌, Text, codes, List, [], ◌∷◌, none, arith}

abbrev two_args : List Text
two_args = codes "--crop" ∷ codes "a b" ∷ []

split_shell_args-quote_args_example : split_shell_args (quote_args two_args) ≡ two_args
split_shell_args-quote_args_example = split_shell_args-quote_args two_args

abbrev surround : Stream
surround = record {
  codec_type = codes "audio";
  codec_name = codes "ac3";
  stream_width = 0;
  stream_height = 0;
  transfer = [];
  bit_rate = none;
  channels = 6;
}

evaluate_filters_iff_example :
    is_skip (
      evaluate_filters none
        (record sample_profile { skip_file_size_mb = 1 })
        (record sample_job { file_size = 1000 }))
    ≡ (size_hit
          (record sample_profile { skip_file_size_mb = 1 })
          (record sample_job { file_size = 1000 })
        || false)
evaluate_filters_iff_example =
    evaluate_filters_iff none (record sample_profile { skip_file_size_mb = 1 })
      (record sample_job { file_size = 1000 })

abbrev minutes_in : ℤ → ℕ
minutes_in (pos n) = n
minutes_in (negsuc n) = 0

late_not_early : pos 1320 ≢ pos 360
late_not_early e = absurd (omega (arith, ap minutes_in e))
