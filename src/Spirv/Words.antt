-- ===== src/Spirv/Words.antt =====
-- framegen/src/core/spirv_compat.cpp, bytesToWords, wordsToBytes and encodeExtension: words of 32
-- bits in the byte order of the processors the program is built for, least byte first.
use lsfg_vk_android.Common.{
  ℕ, zero, suc, ◌+◌, ◌-◌, ◌*◌, ◌/◌, ◌%◌, ◌^◌, ◌<◌, ◌≡◌, refl, List, [], ◌∷◌, ◌++◌, All, length,
  repeat, Bool, true, false, ◌&&◌, ◌||◌, ◌==◌, arith,
}
use lsfg_vk_android.Spirv.{op_extension}

-- std::memcpy of whole words; bytes beyond the last word are not read.
unfoldable pub bytes_to_words : List ℕ → List ℕ
bytes_to_words [] = []
bytes_to_words (a ∷ []) = []
bytes_to_words (a ∷ b ∷ []) = []
bytes_to_words (a ∷ b ∷ c ∷ []) = []
bytes_to_words (a ∷ b ∷ c ∷ d ∷ rest) =
    (a + b * 256 + c * 65536 + d * 16777216) ∷ bytes_to_words rest

abbrev pub bytes_of : ℕ → List ℕ → List ℕ
bytes_of word rest =
    word % 256 ∷ word / 256 % 256 ∷ word / 65536 % 256 ∷ word / 16777216 % 256 ∷ rest

unfoldable pub words_to_bytes : List ℕ → List ℕ
words_to_bytes [] = []
words_to_bytes (word ∷ rest) = bytes_of word (words_to_bytes rest)

-- An OpExtension with a name, its NUL and zeros up to the end of a word.
unfoldable pub encode_extension : List ℕ → List ℕ
encode_extension name =
    let size = length name + 1 in
    let string_words = (size + 3) / 4 in
    ((1 + string_words) * 2 ^ 16 % 2 ^ 32 + op_extension)
    ∷ bytes_to_words (name ++ repeat 0 (4 * string_words - length name))

-- std::strncmp(...) == 0 on bytes that hold at least `count` characters or a NUL.
unfoldable pub same_text : ℕ → List ℕ → List ℕ → Bool
same_text zero value expected = true
same_text (suc count) [] expected = false
same_text (suc count) (x ∷ value) [] = false
same_text (suc count) (x ∷ value) (y ∷ expected) =
    x == y && (x == 0 || same_text count value expected)

-- Whole words of bytes.
abbrev pub AreBytes : List ℕ → Type 0
AreBytes bytes = All (λ b. b < 256) bytes

abbrev pub AreWords : List ℕ → Type 0
AreWords words = All (λ w. w < 2 ^ 32) words

word-bytes :
    (a b c d : ℕ)
    → a < 256
    → b < 256
    → c < 256
    → d < 256
    → (let w = a + b * 256 + c * 65536 + d * 16777216 in
        (w % 256 ≡ a) × (w / 256 % 256 ≡ b) × (w / 65536 % 256 ≡ c) × (w / 16777216 % 256 ≡ d))
word-bytes a b c d ha hb hc hd = (omega arith, omega arith, omega arith, omega arith)

-- The bytes of whole words come back: copying bytes to words and back changes nothing.
pub bytes-words-bytes :
    (bytes : List ℕ)
    → length bytes % 4 ≡ zero
    → AreBytes bytes
    → words_to_bytes (bytes_to_words bytes) ≡ bytes
unfolding bytes_to_words words_to_bytes
bytes-words-bytes [] h v = refl
bytes-words-bytes (a ∷ []) h v = absurd (omega arith)
bytes-words-bytes (a ∷ b ∷ []) h v = absurd (omega arith)
bytes-words-bytes (a ∷ b ∷ c ∷ []) h v = absurd (omega arith)
bytes-words-bytes (a ∷ b ∷ c ∷ d ∷ rest) h (ha, (hb, (hc, (hd, v)))) =
    let (ea, eb, ec, ed) = word-bytes a b c d ha hb hc hd in
    let ih = bytes-words-bytes rest (omega arith) v in rw (ea, eb, ec, ed, ih)

-- The words come back from their bytes.
pub words-bytes-words :
    (words : List ℕ) → AreWords words → bytes_to_words (words_to_bytes words) ≡ words
unfolding bytes_to_words words_to_bytes
words-bytes-words [] v = refl
words-bytes-words (word ∷ rest) (h, v) =
    let ih = words-bytes-words rest v in
    let e : word % 256
          + word / 256 % 256 * 256
          + word / 65536 % 256 * 65536
          + word / 16777216 % 256 * 16777216
        ≡ word =
      omega arith in
    rw (e, ih)

pub bytes_to_words-AreWords : (bytes : List ℕ) → AreBytes bytes → AreWords (bytes_to_words bytes)
unfolding bytes_to_words
bytes_to_words-AreWords [] v = tt
bytes_to_words-AreWords (a ∷ []) v = tt
bytes_to_words-AreWords (a ∷ b ∷ []) v = tt
bytes_to_words-AreWords (a ∷ b ∷ c ∷ []) v = tt
bytes_to_words-AreWords (a ∷ b ∷ c ∷ d ∷ rest) (ha, (hb, (hc, (hd, v)))) =
    (omega arith, bytes_to_words-AreWords rest v)
