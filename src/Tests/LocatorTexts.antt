-- ===== src/Tests/LocatorTexts.antt =====
-- A concrete encoding of a `Locator` in bytes that is read back, in the place of `encoding/json`:
-- the sign and the number of the process and the lengths of the texts in strokes, then the texts.
use kg_os.Common.{
  ℕ, zero, suc, ◌==◌, if◌then◌else◌, false, Bytes, ◌∷◌, [], ◌++◌, not, some, Option, none, take,
  drop, length, bytes_eq, ◌≡◌, refl, ap, ◌∙◌, subst, append_assoc,
}
use kg_os.RuntimeProfile.InstanceLock.{
  ℤ, pos, negsuc, Locator, Content, empty, object, Json, newline,
}
use kg_os.RuntimeProfile.InstanceLock.Published.{ReadsBack}

-- As many strokes as a number says, with a dot behind them.
abbrev strokes : ℕ → Bytes → Bytes
strokes zero s = 46 ∷ s
strokes (suc n) s = 124 ∷ strokes n s

abbrev read_strokes : Bytes → ℕ × Bytes
read_strokes [] = (0, [])
read_strokes (b ∷ s) = let (n, rest) = read_strokes s in if b == 46 then (0, s) else (suc n, rest)

read_strokes-strokes : (n : ℕ) (s : Bytes) → read_strokes (strokes n s) ≡ (n, s)
read_strokes-strokes zero s = refl
read_strokes-strokes (suc n) s = rw (read_strokes-strokes n s) refl

abbrev signed : ℤ → Bytes → Bytes
signed (pos n) s = 43 ∷ strokes n s
signed (negsuc n) s = 45 ∷ strokes n s

abbrev pub locator_text : Locator → Bytes
locator_text l =
    signed l.pid
      (strokes (length l.endpoint) (strokes (length l.version) (l.endpoint ++ l.version)))

-- The two texts, of which the lengths are known, and whether the newline is all there is behind.
abbrev read_texts : ℤ → ℕ → ℕ → Bytes → Content
read_texts pid e v s =
    object (record { pid = pid; endpoint = take e s; version = take v (drop e s) })
      (not (bytes_eq (drop v (drop e s)) newline))

abbrev read_lengths : ℤ → Bytes → Content
read_lengths pid s =
    let (e, rest) = read_strokes s in let (v, texts) = read_strokes rest in read_texts pid e v texts

abbrev read_locator : Bytes → Content
read_locator [] = empty
read_locator (sign ∷ s) =
    let (n, rest) = read_strokes s in read_lengths (if sign == 43 then pos n else negsuc n) rest

abbrev pub sample_json : Json
sample_json = record { marshal = λ l. some (locator_text l); decode = read_locator }

take-append : (s t : Bytes) → take (length s) (s ++ t) ≡ s
take-append [] t = refl
take-append (b ∷ s) t = ap (λ s. b ∷ s) (take-append s t)

drop-append : (s t : Bytes) → drop (length s) (s ++ t) ≡ t
drop-append [] t = refl
drop-append (b ∷ s) t = drop-append s t

strokes-append : (n : ℕ) (s t : Bytes) → strokes n s ++ t ≡ strokes n (s ++ t)
strokes-append zero s t = refl
strokes-append (suc n) s t = ap (λ s. 124 ∷ s) (strokes-append n s t)

read_texts-append :
    (pid : ℤ) (e v : Bytes)
    → read_texts pid (length e) (length v) ((e ++ v) ++ newline)
      ≡ object (record { pid = pid; endpoint = e; version = v }) false
unfolding bytes_eq
read_texts-append pid e v =
    rw
      (
        append_assoc e v newline,
        take-append e (v ++ newline),
        drop-append e (v ++ newline),
        take-append v newline,
        drop-append v newline,
      )
      refl

read_lengths-strokes :
    (pid : ℤ) (e v : Bytes)
    → read_lengths pid (strokes (length e) (strokes (length v) (e ++ v)) ++ newline)
      ≡ object (record { pid = pid; endpoint = e; version = v }) false
read_lengths-strokes pid e v =
    rw
      (
        strokes-append (length e) (strokes (length v) (e ++ v)) newline,
        strokes-append (length v) (e ++ v) newline,
        read_strokes-strokes (length e) (strokes (length v) ((e ++ v) ++ newline)),
        read_strokes-strokes (length v) ((e ++ v) ++ newline),
      )
      (read_texts-append pid e v)

read_locator-text :
    (pid : ℤ) (s : Bytes) → read_locator (signed pid s ++ newline) ≡ read_lengths pid (s ++ newline)
read_locator-text (pos n) s =
    rw (strokes-append n s newline, read_strokes-strokes n (s ++ newline)) refl
read_locator-text (negsuc n) s =
    rw (strokes-append n s newline, read_strokes-strokes n (s ++ newline)) refl

text_of : Option Bytes → Bytes
text_of none = []
text_of (some s) = s

pub sample_json-ReadsBack : ReadsBack sample_json
unfolding text_of
sample_json-ReadsBack = record {
  decode_marshal = λ l body h same.
      subst (λ text. read_locator (text ++ newline) ≡ object l false) (ap text_of same)
        (read_locator-text l.pid _ ∙ read_lengths-strokes l.pid l.endpoint l.version);
}
