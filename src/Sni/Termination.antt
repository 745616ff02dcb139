-- ===== src/Sni/Termination.antt =====
-- The search for a server name comes to an end once the payload is a ClientHello.
use packetd.Base.{
  ℕ, zero, suc, ◌+◌, ◌*◌, ◌<◌, ◌≤◌, ◌≡◌, refl, Bool, true, false, not, Option, none, some, List, [],
  length, get_elem?, ◌==◌, ltb, leb, if◌then◌else◌, arith, Bool-cases, inl, inr, ltb→lt,
}
use packetd.Sni.{
  Extraction, extracted, index_panic, unfinished, with_byte, with_word, take_name, read_name,
  read_extension, extension_loop, read_extensions, go_on, skip_compression, skip_ciphers,
  skip_session_id,
}

-- A run that releases the session or panics.
abbrev pub is_decided : Extraction → Bool
is_decided (extracted release name) = release
is_decided index_panic = true
is_decided unfinished = false

record IsDecided (x : Extraction) : Type 0 where
  decided : is_decided x ≡ true

fails : IsDecided index_panic
fails = record { decided = refl }

released : {name : List ℕ} → IsDecided (extracted true name)
released = record { decided = refl }

with_byte_ends :
    (o : Option ℕ) (next : ℕ → Extraction)
    → ((b : ℕ) → IsDecided (next b))
    → IsDecided (with_byte o next)
with_byte_ends none next h = fails
with_byte_ends (some b) next h = h b

with_word_ends :
    (buffer : List ℕ) (i : ℕ) (next : ℕ → Extraction)
    → ((n : ℕ) → IsDecided (next n))
    → IsDecided (with_word buffer i next)
unfolding with_word
with_word_ends buffer i next h =
    with_byte_ends (get_elem? buffer i) _
      (λ high. with_byte_ends (get_elem? buffer (i + 1)) _ (λ low. h (high * 256 + low)))

if_ends : (b : Bool) (x y : Extraction) → IsDecided x → IsDecided y → IsDecided (if b then x else y)
if_ends true x y h k = h
if_ends false x y h k = k

take_name_ends : (buffer : List ℕ) (spot n : ℕ) → IsDecided (take_name buffer spot n)
unfolding take_name
take_name_ends buffer spot n = if_ends (leb (spot + n) (length buffer)) _ _ released fails

read_name_ends :
    (buffer : List ℕ) (skipped : Extraction) (spot : ℕ)
    → IsDecided skipped
    → IsDecided (read_name buffer skipped spot)
unfolding read_name
read_name_ends buffer skipped spot h = with_byte_ends (get_elem? buffer spot) _ (λ t.
    if_ends (t == 0) _ _
      (with_word_ends buffer (spot + 1) (λ n. take_name buffer (spot + 3) n)
        (λ n. take_name_ends buffer (spot + 3) n))
      h)

read_extension_ends :
    (buffer : List ℕ) (next : ℕ → Extraction) (current : ℕ)
    → ((c : ℕ) → current + 4 ≤ c → IsDecided (next c))
    → IsDecided (read_extension buffer next current)
unfolding read_extension
read_extension_ends buffer next current h = with_word_ends buffer current _ (λ t.
    with_word_ends buffer (current + 2) _ (λ n.
      if_ends (not (t == 0)) _ _ (h (current + 4 + n) (omega arith))
        (read_name_ends buffer _ (current + 6) (h (current + 4 + n) (omega arith)))))

loop_ends :
    (buffer : List ℕ) (fuel current : ℕ)
    → length buffer < fuel + current
    → 1 ≤ fuel
    → IsDecided (extension_loop buffer fuel current)
unfolding extension_loop
loop_ends buffer zero current h l = absurd (omega arith)
loop_ends buffer (suc fuel) current h l = elim (Bool-cases (ltb current (length buffer))) [
  | inl t ↦
      let inside = ltb→lt current (length buffer) t in
      rw (t, extension_loop)
        (read_extension_ends buffer (extension_loop buffer fuel) current
          (λ c m. loop_ends buffer fuel c (omega arith) (omega arith)))
  | inr t ↦ rw (t, extension_loop) released
]

go_on_ends :
    (buffer : List ℕ) (next : ℕ → Extraction) (current : ℕ)
    → IsDecided (next current)
    → IsDecided (go_on buffer next current)
unfolding go_on
go_on_ends buffer next current h = if_ends (leb (length buffer) current) _ _ released h

read_extensions_ends : (buffer : List ℕ) (current : ℕ) → IsDecided (read_extensions buffer current)
unfolding read_extensions
read_extensions_ends buffer current = with_word_ends buffer current _ (λ n.
    if_ends (n == 0) _ _ (released {name = []})
      (loop_ends buffer (suc (length buffer)) (current + 2) (omega arith) (omega arith)))

skip_ends : (buffer : List ℕ) → IsDecided (skip_session_id buffer)
unfolding skip_session_id skip_ciphers skip_compression
skip_ends buffer = with_byte_ends (get_elem? buffer 43) _ (λ n.
    go_on_ends buffer (skip_ciphers buffer) (44 + n) (
      with_word_ends buffer (44 + n) _ (λ m.
        go_on_ends buffer (skip_compression buffer) (44 + n + 2 + m) (
          with_byte_ends (get_elem? buffer (44 + n + 2 + m)) _ (λ k.
            go_on_ends buffer (read_extensions buffer) (44 + n + 2 + m + 1 + k)
              (read_extensions_ends buffer (44 + n + 2 + m + 1 + k)))))))

-- From the session id on, every run releases the session or panics on an index: the loop never runs
-- out of the fuel of one round more than the buffer has bytes.
pub skip_session_id_lem : (buffer : List ℕ) → is_decided (skip_session_id buffer) ≡ true
skip_session_id_lem buffer = (skip_ends buffer).decided
