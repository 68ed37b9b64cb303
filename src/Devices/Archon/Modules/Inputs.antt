-- ===== src/Devices/Archon/Modules/Inputs.antt =====
-- What the heater module takes from the status: `update_variables` in
-- devices/archon/archon_module_heaterx.cpp.
use foxtrot.Base.{
  ℕ, zero, suc, ◌<◌, ◌≡◌, refl, ap, ◌∙◌, arith, Bool, true, List, [], ◌∷◌, Result, ok, All, ◌>>=◌,
}
use foxtrot.Base.Int.{ℤ, pos, negsuc}
use foxtrot.Base.Decimal.{decimal, stoi}
use foxtrot.Base.Numerals.{stoi-decimal_pos}
use foxtrot.Base.Texts.{Text, bytes}
use foxtrot.Base.Dict.{Dict}
use foxtrot.Devices.Archon.{Error, whole}
use foxtrot.Devices.Archon.Settings.{int_bool}
use foxtrot.Devices.Archon.Modules.{get_module_variable_string, extract_int, extract_float}

-- `iss.get()`: the code of a character, -1 at the end.
abbrev pub get_char : Text → ℤ × Text
get_char [] = (negsuc 0, [])
get_char (c ∷ cs) = (pos c, cs)

-- The code is printed as a number, which is read back.
abbrev pub input_bit : ℤ → Result Error Bool
input_bit c = whole (stoi (decimal c)) >>= (λ n. ok (int_bool n))

unfoldable pub read_inputs : ℕ → Text → Result Error (List Bool)
read_inputs zero iss = ok []
read_inputs (suc n) iss =
    let (c, more) = get_char iss in
    input_bit c >>= (λ b. read_inputs n more >>= (λ bs. ok (b ∷ bs)))

pub record HeaterXVariables (R : Type 0) : Type 0 where
  pub heater_a_output : R
  pub heater_b_output : R
  pub temp_a : R
  pub temp_b : R
  pub temp_c : R
  pub heater_ap : ℤ
  pub heater_ai : ℤ
  pub heater_ad : ℤ
  pub heater_bp : ℤ
  pub heater_bi : ℤ
  pub heater_bd : ℤ
  pub gpio : List Bool

-- All but the inputs, which are left empty.
unfoldable pub read_numbers :
    {R : Type 0} → (Text → Result Error R) → ℕ → Dict Text Text → Result Error (HeaterXVariables R)
unfolding extract_float extract_int
read_numbers stof modpos statmap = do
  heater_a_output ← extract_float stof modpos (bytes "HEATERAOUTPUT") statmap
  heater_b_output ← extract_float stof modpos (bytes "HEATERBOUTPUT") statmap
  temp_a ← extract_float stof modpos (bytes "TEMPA") statmap
  temp_b ← extract_float stof modpos (bytes "TEMPB") statmap
  temp_c ← extract_float stof modpos (bytes "TEMPC") statmap
  heater_ap ← extract_int modpos (bytes "HEATERAP") statmap
  heater_ai ← extract_int modpos (bytes "HEATERAI") statmap
  heater_ad ← extract_int modpos (bytes "HEATERAD") statmap
  heater_bp ← extract_int modpos (bytes "HEATERBP") statmap
  heater_bi ← extract_int modpos (bytes "HEATERBI") statmap
  heater_bd ← extract_int modpos (bytes "HEATERBD") statmap
  ok (record {
    heater_a_output = heater_a_output;
    heater_b_output = heater_b_output;
    temp_a = temp_a;
    temp_b = temp_b;
    temp_c = temp_c;
    heater_ap = heater_ap;
    heater_ai = heater_ai;
    heater_ad = heater_ad;
    heater_bp = heater_bp;
    heater_bi = heater_bi;
    heater_bd = heater_bd;
    gpio = [];
  })

unfoldable pub update_variables :
    {R : Type 0} → (Text → Result Error R) → ℕ → Dict Text Text → Result Error (HeaterXVariables R)
unfolding get_module_variable_string read_inputs
update_variables stof modpos statmap = do
  variables ← read_numbers stof modpos statmap
  gpiostr ← get_module_variable_string modpos (bytes "DINPUTS") statmap b'/'
  gpio ← read_inputs 8 gpiostr
  ok (record variables { gpio = gpio })

-- `n` times true.
abbrev pub all_true : ℕ → List Bool
all_true zero = []
all_true (suc n) = true ∷ all_true n

-- Characters that are not zero.
abbrev pub AreSet : Text → Type 0
AreSet = All (λ c. (0 < c) × (c < 256))

char_bit : (c : ℕ) → 0 < c → c < 256 → input_bit (pos c) ≡ ok true
char_bit c positive small =
    ap (λ r. whole r >>= (λ n. ok (int_bool n))) (stoi-decimal_pos c (omega arith)) ∙ ground arith

end_bit : input_bit (negsuc 0) ≡ ok true
unfolding decimal stoi
end_bit = refl

read_inputs_set : (n : ℕ) (text : Text) → AreSet text → read_inputs n text ≡ ok (all_true n)
unfolding read_inputs
read_inputs_set zero text h = refl
read_inputs_set (suc n) [] h =
    ap (λ r. r >>= (λ b. read_inputs n [] >>= (λ bs. ok (b ∷ bs)))) end_bit
    ∙ ap (λ r. r >>= (λ bs. ok (true ∷ bs))) (read_inputs_set n [] tt)
read_inputs_set (suc n) (c ∷ cs) h =
    ap (λ r. r >>= (λ b. read_inputs n cs >>= (λ bs. ok (b ∷ bs)))) (char_bit c h.0.0 h.0.1)
    ∙ ap (λ r. r >>= (λ bs. ok (true ∷ bs))) (read_inputs_set n cs h.1)

-- Whatever the controller reports of the eight inputs, high or low, all of them are true after an update
-- that reads its other variables, unless a byte of the report is zero.
pub update_variables_inputs :
    {R : Type 0} (stof : Text → Result Error R) (modpos : ℕ) (statmap : Dict Text Text)
    (gpiostr : Text)
    → get_module_variable_string modpos (bytes "DINPUTS") statmap b'/' ≡ ok gpiostr
    → AreSet gpiostr
    → update_variables stof modpos statmap
      ≡ (read_numbers stof modpos statmap >>= (λ v. ok (record v { gpio = all_true 8 })))
unfolding update_variables
update_variables_inputs stof modpos statmap gpiostr has h =
    ap
      (λ t.
        read_numbers stof modpos statmap
        >>= (λ v. t >>= (λ s. read_inputs 8 s >>= (λ bs. ok (record v { gpio = bs })))))
      has
    ∙ ap
        (λ r. read_numbers stof modpos statmap >>= (λ v. r >>= (λ bs. ok (record v { gpio = bs }))))
        (read_inputs_set 8 gpiostr h)
