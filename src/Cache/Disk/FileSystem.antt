-- ===== src/Cache/Disk/FileSystem.antt =====
-- What the disk store of crates/rustorr-cache/src/disk.rs asks of `std::fs`. The state of the file
-- system goes in and comes out; what was changed before an error stays changed.
use rustorr.Base.{
  ℕ, ◌+◌, ◌-◌, ◌<◌, ◌≡◌, All, Bool, true, false, Option, none, some, List, [], ◌∷◌, ◌++◌, ◌&&◌,
  if◌then◌else◌, Result, ok, err, length, take, drop, replicate,
}
use rustorr.Text.{Text, text_eq}
use rustorr.Cache.Error.{CacheError, io}

abbrev pub FilePath : Type 0
FilePath = List Text

unfoldable pub path_eq : FilePath → FilePath → Bool
path_eq [] [] = true
path_eq (x ∷ xs) (y ∷ ys) = text_eq x y && path_eq xs ys
path_eq _ _ = false

pub data IoError : Type 0 where
  not_found : IoError
  failure : ℕ → IoError

pub record FileSystem (F : Type 0) : Type 0 where
  pub read_to_string : F → FilePath → Option Text
  pub file_len : F → FilePath → Option ℕ
  -- The names in a directory; `none` is a name that is no text.
  pub read_dir : F → FilePath → Result IoError (List (Result IoError (Option Text)))
  pub remove_dir_all : F → FilePath → Result IoError (Unit {0}) × F
  pub create_dir_all : F → FilePath → Result IoError (Unit {0}) × F
  -- Opens for writing, creates, and does not truncate.
  pub open_write : F → FilePath → Result IoError (Unit {0}) × F
  pub write_all_at : F → FilePath → List ℕ → ℕ → Result IoError (Unit {0}) × F
  -- Creates, or truncates.
  pub create : F → FilePath → Result IoError (Unit {0}) × F
  pub write_all : F → FilePath → Text → Result IoError (Unit {0}) × F
  pub sync_all : F → FilePath → Result IoError (Unit {0}) × F
  pub rename : F → FilePath → FilePath → Result IoError (Unit {0}) × F
  pub open_read : F → FilePath → Result IoError (Unit {0})
  pub read_exact_at : F → FilePath → ℕ → ℕ → Result IoError (List ℕ)

-- A step on the file system.
abbrev pub Io : Type 0 → Type 0 → Type 0
Io F A = F → Result CacheError A × F

infixl 10 ◌>>=◌ ◌>>◌
abbrev pub ◌>>=◌ : {F A B : Type 0} → Io F A → (A → Io F B) → Io F B
◌>>=◌ m k f = let (r, f') = m f in elim r [ ok a ↦ k a f' | err e ↦ (err e, f') ]

abbrev pub ◌>>◌ : {F B : Type 0} → Io F (Unit {0}) → Io F B → Io F B
m >> k = m >>= λ _. k

-- `map_err(io_error(context))`, the context by a number.
abbrev pub with_context : {F A : Type 0} → ℕ → (F → Result IoError A × F) → Io F A
with_context n m f = let (r, f') = m f in elim r [ ok a ↦ (ok a, f') | err e ↦ (err (io n), f') ]

-- Bytes put over a file's content at a position; a gap before it reads as zeros.
abbrev pub put_at : ℕ → List ℕ → List ℕ → List ℕ
put_at at xs content =
    take at (content ++ replicate (at - length content) 0) ++ (xs ++ drop (at + length xs) content)

-- Bytes that are text, byte for byte a character.
abbrev pub IsAscii : List ℕ → Type 0
IsAscii = All (λ b. b < 128)

-- What the calls promise where they succeed, by the bytes that each file then has. A text is written as
-- UTF-8, and a file is read as a text only if it is UTF-8: both are stated of ASCII alone, where the
-- characters are the bytes.
pub record IsFileSystem {F : Type 0} (fs : FileSystem F) : Type 0 where
  pub content : F → FilePath → Option (List ℕ)
  pub reads :
      (f : F) (p : FilePath) (c : List ℕ)
      → content f p ≡ some c
      → IsAscii c
      → fs.read_to_string f p ≡ some c
  pub file_lens :
      (f : F) (p : FilePath)
      → fs.file_len f p ≡ elim (content f p) [ none ↦ none | some c ↦ some (length c) ]
  pub opened :
      (f f' : F) (p q : FilePath)
      → fs.open_write f p ≡ (ok tt, f')
      → content f' q ≡ (
          if path_eq p q then some (elim (content f p) [ none ↦ [] | some c ↦ c ]) else content f q)
  pub written_at :
      (f f' : F) (p q : FilePath) (c bytes : List ℕ) (at : ℕ)
      → content f p ≡ some c
      → fs.write_all_at f p bytes at ≡ (ok tt, f')
      → content f' q ≡ (if path_eq p q then some (put_at at bytes c) else content f q)
  pub created :
      (f f' : F) (p q : FilePath)
      → fs.create f p ≡ (ok tt, f')
      → content f' q ≡ (if path_eq p q then some [] else content f q)
  pub written :
      (f f' : F) (p q : FilePath) (c : List ℕ) (s : Text)
      → content f p ≡ some c
      → IsAscii s
      → fs.write_all f p s ≡ (ok tt, f')
      → content f' q ≡ (if path_eq p q then some (c ++ s) else content f q)
  pub synced :
      (f f' : F) (p q : FilePath) → fs.sync_all f p ≡ (ok tt, f') → content f' q ≡ content f q
  pub renamed :
      (f f' : F) (p p' q : FilePath)
      → fs.rename f p p' ≡ (ok tt, f')
      → content f' q
        ≡ (if path_eq p' q then content f p else if path_eq p q then none else content f q)
