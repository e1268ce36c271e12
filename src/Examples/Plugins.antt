-- ===== src/Examples/Plugins.antt =====
-- The monitor of authentication failures on a short log.
use ar_csent.Prelude.{length, none, pos, ◌≡◌, refl, [], ◌∷◌}
use ar_csent.Text.{Text, codes, text_eq}
use ar_csent.Results.{drop}
use ar_csent.Dict.{get}
use ar_csent.Signatures.Paths.{contains}
use ar_csent.Api.{ok}
use ar_csent.Plugins.{Setting}
use ar_csent.Plugins.LoadAverage.{parse_load_avg}
use ar_csent.Plugins.AuthLog.{
  AuthLogMonitor, init, auth_failed, matches, scan_from, scan_lines, findings, findings-last,
}

abbrev monitor : AuthLogMonitor
monitor = init ((codes "max_lines", Setting.positive 2) ∷ [])

abbrev log : Text
log = codes "sshd: Invalid user a\nsshd: Accepted key\nsshd: Failed password for b"

findings-last_example :
    findings {J = Unit} monitor log ≡ auth_failed (codes "sshd: Failed password for b") ∷ []
unfolding init get text_eq scan_lines contains drop matches
findings-last_example = findings-last monitor log

overlong : scan_from 4 [] 0 (codes "ab\ncdef\ngh") ≡ codes "ab" ∷ []
unfolding scan_from
overlong = refl

parsed :
    parse_load_avg (λ s. ok s) (λ s. (pos (length s), none)) (codes "0.1 0.2 0.3 12/345 6789\n")
    ≡ ok (record {
      load1 = codes "0.1";
      load5 = codes "0.2";
      load15 = codes "0.3";
      runnable = pos 2;
      total_threads = pos 3;
      last_pid = pos 4;
    })
unfolding parse_load_avg
parsed = refl
