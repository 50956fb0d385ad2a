-- ===== src/Kargs/Tests.antt =====
-- Runs of Merge, and its theorems at concrete command lines.
use actions.Prelude.{◌≡◌, refl, filter}
use actions.Text.{Text, codes, is_space, has_member, cut, text_eq, join}
use actions.Text.Fields.{fields, fields_from}
use actions.Kargs.{merge, replace, has_key}
use actions.Kargs.Merge.{merge_idem, merge_by_key, last_or, merge_keeps_others, untouched}

abbrev existing : Text
existing = codes "console=tty0  quiet console=ttyS0 talos.platform=metal"

abbrev setting : Text
setting = codes "console=ttyS1 quiet net.ifnames=0"

merge_runs : merge existing setting ≡ codes "console=ttyS1 quiet talos.platform=metal net.ifnames=0"
unfolding merge replace has_key fields fields_from is_space has_member cut text_eq join
merge_runs = refl

merge_idem_example : merge (merge existing setting) setting ≡ merge existing setting
merge_idem_example = merge_idem existing setting

merge_by_key_example :
    filter (has_key (codes "console")) (fields (merge existing setting))
    ≡ last_or
        (filter (has_key (codes "console")) (fields existing))
        (filter (has_key (codes "console")) (fields setting))
merge_by_key_example = merge_by_key (codes "console") existing setting

merge_keeps_others_example :
    filter (untouched (fields setting)) (fields (merge existing setting))
    ≡ filter (untouched (fields setting)) (fields existing)
merge_keeps_others_example = merge_keeps_others existing setting
