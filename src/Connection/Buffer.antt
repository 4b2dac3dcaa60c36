-- ===== src/Connection/Buffer.antt =====
-- The read buffer of a connection: `buffer_.resize` and the bytes that the operating system puts
-- at the cursor.
use content_analysis_sdk.Prelude.{
  ℕ, zero, suc, ◌+◌, ◌≤◌, [], ◌∷◌, ◌++◌, ◌≡◌, refl, ap, Text, length, take, arith,
}
use content_analysis_sdk.Connection.{resize, overwrite}

pub length-resize : (n : ℕ) (xs : Text) → length (resize n xs) ≡ n
unfolding resize
length-resize zero xs = refl
length-resize (suc n) [] = ap suc (length-resize n [])
length-resize (suc n) (x ∷ xs) = ap suc (length-resize n xs)

pub take-resize : (k n : ℕ) (xs : Text) → k ≤ length xs → k ≤ n → take k (resize n xs) ≡ take k xs
unfolding resize
take-resize zero n xs h g = refl
take-resize (suc k) n [] h g = absurd (omega arith)
take-resize (suc k) zero (x ∷ xs) h g = absurd (omega arith)
take-resize (suc k) (suc n) (x ∷ xs) h g =
    ap (λ l. x ∷ l) (take-resize k n xs (omega arith) (omega arith))

pub length-overwrite : (place : ℕ) (bytes xs : Text) → length (overwrite place bytes xs) ≡ length xs
unfolding overwrite
length-overwrite place bytes [] = refl
length-overwrite (suc place) bytes (x ∷ xs) = ap suc (length-overwrite place bytes xs)
length-overwrite zero [] (x ∷ xs) = refl
length-overwrite zero (b ∷ bytes) (x ∷ xs) = ap suc (length-overwrite zero bytes xs)

-- What stands up to the end of the bytes that were put in.
pub take-overwrite :
    (k place : ℕ) (bytes xs : Text)
    → k ≡ place + length bytes
    → k ≤ length xs
    → take k (overwrite place bytes xs) ≡ take place xs ++ bytes
unfolding overwrite
take-overwrite zero zero [] xs e h = refl
take-overwrite zero zero (b ∷ bytes) xs e h = absurd (omega arith)
take-overwrite zero (suc place) bytes xs e h = absurd (omega arith)
take-overwrite (suc k) place bytes [] e h = absurd (omega arith)
take-overwrite (suc k) zero [] (x ∷ xs) e h = absurd (omega arith)
take-overwrite (suc k) zero (b ∷ bytes) (x ∷ xs) e h =
    ap (λ l. b ∷ l) (take-overwrite k zero bytes xs (omega arith) (omega arith))
take-overwrite (suc k) (suc place) bytes (x ∷ xs) e h =
    ap (λ l. x ∷ l) (take-overwrite k place bytes xs (omega arith) (omega arith))
