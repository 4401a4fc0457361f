-- ===== src/TaskService/Submit/Scripts.antt =====
-- extractScriptsFromZip against a search of the archive.
use mathlib.Core.List.{Perm, append-nil, append_assoc}
use r_orchestrator.Prelude.{
  ℕ, suc, ◌≡◌, ◌≢◌, refl, sym, ◌∙◌, ap, subst, String, Bool, true, false, not, ◌&&◌, same_text,
  clean, split_path, has_suffix, ◌||◌, some, List, [], ◌∷◌, ◌++◌, map, ◌==◌, ltb, if◌then◌else◌,
  length, rows_where, count_where, sorted_texts, text_before, IsSorted, sorted_texts-IsSorted,
  sorted_rows-Perm, arith, not_zero,
}
use r_orchestrator.World.{ZipFile}
use r_orchestrator.Action.{ok}
use r_orchestrator.Action.Success.{ok≢err, ok_inj}
use r_orchestrator.TaskService.Submit.{
  is_install, base_name, is_script, visit, checked_scripts, extract_scripts,
}

-- The file is `cmd/*.sh`.
abbrev pub is_cmd_sh : ZipFile → Bool
is_cmd_sh f =
    let (dir, base) = split_path f.name in
    not f.is_dir && (same_text (clean dir) "cmd" && has_suffix base ".sh")

-- The file is install.sh at the root.
abbrev pub is_root_install : ZipFile → Bool
is_root_install f = not f.is_dir && same_text (clean f.name) "install.sh"

-- The base names of the files `cmd/*.sh`, in the order of the archive.
abbrev pub script_names : List ZipFile → List String
script_names files = map (λ f. (split_path f.name).1) (rows_where is_cmd_sh files)

-- One of the files is install.sh at the root.
abbrev pub has_install : List ZipFile → Bool
has_install files = ltb 0 (count_where is_root_install files)

one_more : (b i : Bool) (n : ℕ) → ((b || i) || ltb 0 n) ≡ (b || ltb 0 (if i then suc n else n))
one_more b i n = ground arith

appended :
    (b : Bool) (f : ZipFile) (scripts : List String) (rest : List ZipFile)
    → (if b then scripts ++ base_name f ∷ [] else scripts) ++ map base_name rest
      ≡ scripts ++ map base_name (if b then f ∷ rest else rest)
appended true f scripts rest = append_assoc scripts (base_name f ∷ []) (map base_name rest)
appended false f scripts rest = refl

both : {A B : Type 0} {a b : A} {x y : B} → a ≡ b → x ≡ y → ◌≡◌ {A = A × B} (a, x) (b, y)
both p q = cc

or_false : (b : Bool) → (b || false) ≡ b
or_false b = ground arith

visit_lem :
    (files : List ZipFile) (b : Bool) (scripts : List String)
    → visit b scripts files ≡ (b || has_install files, scripts ++ script_names files)
unfolding visit is_install is_script
visit_lem [] b scripts = cc (append-nil scripts, or_false b)
visit_lem (f ∷ fs) b scripts =
    visit_lem fs _ _
    ∙ both (one_more b (is_root_install f) (count_where is_root_install fs))
        (appended (is_cmd_sh f) f scripts (rows_where is_cmd_sh fs))

not_empty : (n : String) (ns : List String) → (length (n ∷ ns) == 0) ≡ false
not_empty n ns = not_zero _ (omega arith)

checked_success :
    (b : Bool) (names scripts : List String)
    → checked_scripts (b, names) ≡ ok scripts
    → (b ≡ true) × (names ≢ []) × (sorted_texts names ≡ scripts)
checked_success true [] scripts e = absurd (ok≢err (sym e))
checked_success true (n ∷ ns) scripts e = (refl, (λ h. cc), ok_inj (rw (not_empty n ns) at e))
checked_success false names scripts e = absurd (ok≢err (sym e))

checked_scripts_lem :
    (b : Bool) (names : List String)
    → b ≡ true
    → names ≢ []
    → checked_scripts (b, names) ≡ ok (sorted_texts names)
checked_scripts_lem true [] h k = absurd (k refl)
checked_scripts_lem true (n ∷ ns) h k = rw (not_empty n ns) refl
checked_scripts_lem false names h k = cc

-- What the scripts of an archive are.
pub record AreScripts (files : List ZipFile) (scripts : List String) : Type 0 where
  pub installs : has_install files ≡ true
  pub some_script : script_names files ≢ []
  pub sorted : IsSorted scripts
  pub same : Perm scripts (script_names files)

-- If extractScriptsFromZip accepts the files of an archive, then install.sh is a file at the root,
-- some file is a script, and the result is sorted and is a permutation of the base names of the
-- files cmd/*.sh.
pub extract_scripts-AreScripts :
    (files : List ZipFile) (scripts : List String)
    → extract_scripts (some files) ≡ ok scripts
    → AreScripts files scripts
unfolding extract_scripts
extract_scripts-AreScripts files scripts e =
    let (installs, given, same) =
      checked_success (has_install files) (script_names files) scripts
        (ap checked_scripts (sym (visit_lem files false [])) ∙ e) in
    record {
      installs = installs;
      some_script = given;
      sorted = subst IsSorted same (sorted_texts-IsSorted (script_names files));
      same = subst (λ xs. Perm xs (script_names files)) same (sorted_rows-Perm text_before _);
    }

-- An archive with install.sh and a script is accepted.
pub extract_scripts-accepts :
    (files : List ZipFile)
    → has_install files ≡ true
    → script_names files ≢ []
    → extract_scripts (some files) ≡ ok (sorted_texts (script_names files))
unfolding extract_scripts
extract_scripts-accepts files h k =
    ap checked_scripts (visit_lem files false [])
    ∙ checked_scripts_lem (has_install files) (script_names files) h k
