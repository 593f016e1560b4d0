-- ===== src/Api/Formats.antt =====
-- The formats by which the kernel writes the figures, and those by which the server reads them.
use sistemas_operativos.Prelude.{ℕ, ◌^◌, ◌<◌, ◌≡◌, refl, sym, ap, ◌∙◌, List, [], ◌∷◌, ◌++◌, true}
use mathlib.Core.List.{append-nil}
use sistemas_operativos.Text.{Directive, pieces, codes, format, sscanf, lit}
use sistemas_operativos.Text.Scan.{readable, Fit, format-append, sscanf-format, sscanf-format_lem}
use sistemas_operativos.Stats.{ram_format, swap_format, faults_format, pages_format}
use sistemas_operativos.Api.{ram_scan, swap_scan, faults_scan, pages_scan}

-- A text that is written by a format with one more line end is read back.
read_back :
    (d : List Directive) (values : List ℕ)
    → readable d ≡ true
    → Fit d values
    → sscanf d (format (d ++ lit "\n") values) ≡ values
unfolding format
read_back d values good fit =
    ap (sscanf d) (
      ap (format (d ++ lit "\n")) (sym (append-nil values))
      ∙ format-append d (lit "\n") values [] fit)
    ∙ sscanf-format_lem d values (codes "\n") good fit

-- All that `get_swap_info` writes is read back.
pub sscanf-swap_format :
    (total used free : ℕ)
    → total < 2 ^ 64
    → used < 2 ^ 64
    → free < 2 ^ 64
    → sscanf swap_scan (format swap_format (total ∷ used ∷ free ∷ [])) ≡ total ∷ used ∷ free ∷ []
unfolding swap_scan swap_format readable Fit pieces
sscanf-swap_format total used free a b c =
    read_back swap_scan (total ∷ used ∷ free ∷ []) refl (a, (b, (c, tt)))

-- All that `get_page_faults_info` writes is read back.
pub sscanf-faults_format :
    (x y : ℕ)
    → x < 2 ^ 64
    → y < 2 ^ 64
    → sscanf faults_scan (format faults_format (x ∷ y ∷ [])) ≡ x ∷ y ∷ []
unfolding faults_scan faults_format readable Fit pieces
sscanf-faults_format x y a b = read_back faults_scan (x ∷ y ∷ []) refl (a, (b, tt))

-- All that `get_memory_pages_info` writes is read back.
pub sscanf-pages_format :
    (x y : ℕ)
    → x < 2 ^ 64
    → y < 2 ^ 64
    → sscanf pages_scan (format pages_format (x ∷ y ∷ [])) ≡ x ∷ y ∷ []
unfolding pages_scan pages_format readable Fit pieces
sscanf-pages_format x y a b = read_back pages_scan (x ∷ y ∷ []) refl (a, (b, tt))

-- What both formats of `ram_stats` begin with, and how they go on.
unfoldable ram_prefix : List Directive
ram_prefix = pieces (
    "\"ram_stats\": {\n  \"total\": " ∷ ",\n  \"used\": " ∷ ",\n  \"free\": " ∷ ",\n  \"cache\": "
    ∷ ",\n  \"" ∷ [])

unfoldable kernel_rest : List Directive
kernel_rest = pieces ("buffers\": " ∷ ",\n  \"percentage_used\": " ∷ "\n}\n" ∷ [])

unfoldable server_rest : List Directive
server_rest = pieces ("percentage_used\": " ∷ "\n}" ∷ [])

ram_format-ram_prefix : ram_format ≡ ram_prefix ++ kernel_rest
unfolding ram_format ram_prefix kernel_rest pieces
ram_format-ram_prefix = refl

ram_scan-ram_prefix : ram_scan ≡ ram_prefix ++ server_rest
unfolding ram_scan ram_prefix server_rest pieces
ram_scan-ram_prefix = refl

readable-ram_prefix : readable ram_prefix ≡ true
unfolding ram_prefix pieces readable
readable-ram_prefix = refl

Fit-ram_prefix :
    (total used free cache : ℕ)
    → total < 2 ^ 64
    → used < 2 ^ 64
    → free < 2 ^ 64
    → cache < 2 ^ 64
    → Fit ram_prefix (total ∷ used ∷ free ∷ cache ∷ [])
unfolding ram_prefix pieces Fit
Fit-ram_prefix total used free cache a b c d = (a, (b, (c, (d, tt))))

sscanf-kernel_rest :
    (buffers percentage : ℕ)
    → sscanf server_rest (format kernel_rest (buffers ∷ percentage ∷ [])) ≡ []
unfolding server_rest kernel_rest pieces sscanf format
sscanf-kernel_rest buffers percentage = refl

-- The kernel writes six figures, and the server reads the first four: its format does not know
-- the fifth, and the reading stops there.
pub sscanf-ram_format :
    (total used free cache buffers percentage : ℕ)
    → total < 2 ^ 64
    → used < 2 ^ 64
    → free < 2 ^ 64
    → cache < 2 ^ 64
    → sscanf ram_scan (format ram_format (total ∷ used ∷ free ∷ cache ∷ buffers ∷ percentage ∷ []))
      ≡ total ∷ used ∷ free ∷ cache ∷ []
sscanf-ram_format total used free cache buffers percentage a b c d =
    rw (ram_format-ram_prefix, ram_scan-ram_prefix, split, rest)
      (ap (λ more. read ++ more) (sscanf-kernel_rest buffers percentage))
  where
    read : List ℕ
    read = total ∷ used ∷ free ∷ cache ∷ []

    left : List ℕ
    left = buffers ∷ percentage ∷ []

    split :
        format (ram_prefix ++ kernel_rest) (read ++ left)
        ≡ format ram_prefix read ++ format kernel_rest left
    split =
        format-append ram_prefix kernel_rest read left
          (Fit-ram_prefix total used free cache a b c d)

    rest :
        sscanf (ram_prefix ++ server_rest) (format ram_prefix read ++ format kernel_rest left)
        ≡ read ++ sscanf server_rest (format kernel_rest left)
    rest =
        sscanf-format ram_prefix server_rest read (format kernel_rest left) readable-ram_prefix
          (Fit-ram_prefix total used free cache a b c d)
