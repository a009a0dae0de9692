-- ===== src/SArray.antt =====
-- `SArray` (include/ps/sarray.h): the memory of one array that nothing else shares, and its growth.
-- Devices, sharing and the release of memory are not modelled; what an operation appends does not
-- lie in the array itself.
pub mod Contents
pub mod Calls
mod Tests
use step_mesh.Prelude.{
  ℕ, ◌+◌, ◌-◌, ◌*◌, List, [], ◌∷◌, ◌++◌, leb, ◌==◌, if◌then◌else◌, length, set, take, drop,
  replicate,
}

-- `memory` has a value for each of the `capacity_` cells behind `ptr_`.
pub record SArray (V : Type 0) : Type 0 where
  pub memory : List V
  pub size : ℕ

module _ {V : Type 0} where
  -- `memcpy` of the values to the cells from `start` on
  pub overwrite : (memory : List V) → (start : ℕ) → (data_ : List V) → List V
  overwrite memory start data_ = take start memory ++ (data_ ++ drop (start + length data_) memory)

  -- The cells up to `n` after `resize`: new ones get `val`, also where new memory was allocated.
  pub fill_new : (memory : List V) → (size n : ℕ) → V → List V
  unfolding overwrite
  fill_new memory size n val =
      if leb n size then memory else overwrite memory size (replicate (n - size) val)

  pub resize : (n : ℕ) (val : V) → SArray V → SArray V
  unfolding fill_new
  resize n val a =
      if leb n (length a.memory)
      then record { memory = fill_new a.memory a.size n val; size = n }
      else record { memory = take a.size a.memory ++ replicate (n - a.size) val; size = n }

  -- `zero_value` is the default of `val`.
  pub reserve : (zero_value : V) → (n : ℕ) → SArray V → SArray V
  unfolding resize
  reserve zero_value n a =
      if leb n (length a.memory) then a else record (resize n zero_value a) { size = a.size }

  pub push_back : (zero_value val : V) → SArray V → SArray V
  unfolding reserve
  push_back zero_value val a =
      let b = if a.size == length a.memory then reserve zero_value (a.size * 2 + 5) a else a in
      record { memory = set b.memory b.size val; size = b.size + 1 }

  pub pop_back : SArray V → SArray V
  pop_back a = if a.size == 0 then a else record a { size = a.size - 1 }

  pub append : (zero_value : V) → (data_ : List V) → SArray V → SArray V
  unfolding overwrite resize
  append zero_value data_ a =
      if length data_ == 0
      then a
      else (let b = resize (a.size + length data_) zero_value a in
          record b { memory = overwrite b.memory a.size data_ })

  pub copy_from : (zero_value : V) → (data_ : List V) → SArray V → SArray V
  unfolding overwrite resize
  copy_from zero_value data_ a =
      let b = resize (length data_) zero_value a in record b { memory = overwrite b.memory 0 data_ }

  pub clear : SArray V → SArray V
  clear a = record { memory = []; size = 0 }
