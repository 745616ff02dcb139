-- ===== src/Sni/Truncation.antt =====
-- What a ClientHello that ends too early does.
use packetd.Base.{
  ℕ, zero, suc, ◌+◌, ◌≤◌, ◌≡◌, refl, ◌∙◌, Bool, true, false, Option, none, some, List, [], ◌∷◌,
  length, get_elem?, leb, arith,
}
use packetd.Sni.{
  Extraction, index_panic, with_byte, with_word, go_on, skip_compression, skip_ciphers,
  skip_session_id, extract_sni_hostname,
}
use packetd.Sni.Release.{is_client_hello, extract_lem}

past_end : (buffer : List ℕ) (i : ℕ) → length buffer ≤ i → get_elem? buffer i ≡ none
past_end [] i h = refl
past_end (x ∷ xs) zero h = absurd (omega arith)
past_end (x ∷ xs) (suc i) h = past_end xs i (omega arith)

half_word :
    (buffer : List ℕ) (i : ℕ) (next : ℕ → Extraction)
    → length buffer ≡ i + 1
    → with_word buffer i next ≡ index_panic
unfolding with_word
half_word buffer i next h =
    rw (past_end buffer (i + 1) (omega arith)) (by_first (get_elem? buffer i))
  where
    by_first : (o : Option ℕ) → with_byte o (λ high. index_panic) ≡ index_panic
    by_first none = refl
    by_first (some b) = refl

-- A ClientHello that ends one byte after its session id, in the middle of the length of the cipher
-- suites, makes extractSNIhostname panic on an index.
pub extract_sni_hostname-truncated :
    (buffer : List ℕ) (session_id_length : ℕ)
    → is_client_hello buffer ≡ true
    → get_elem? buffer 43 ≡ some session_id_length
    → length buffer ≡ 45 + session_id_length
    → extract_sni_hostname buffer ≡ index_panic
unfolding skip_session_id go_on skip_ciphers
extract_sni_hostname-truncated buffer n hello at_length ends =
    extract_lem buffer ∙ rw hello (skipped (leb (length buffer) (44 + n)) refl)
  where
    skipped : (b : Bool) → leb (length buffer) (44 + n) ≡ b → skip_session_id buffer ≡ index_panic
    skipped true q = absurd (ground arith)
    skipped false q =
        rw (at_length, q)
          (half_word buffer (44 + n) (λ m. go_on buffer (skip_compression buffer) (44 + n + 2 + m))
            (omega arith))
