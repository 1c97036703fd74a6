-- ===== src/Pagination/Filter/Operators.antt =====
-- infra/pagination/filter_query.go: the operators of a filter query.
use authzsdk.Prelude.{Bool, ◌||◌, [], Text, lit, text_eq, if◌then◌else◌}

abbrev pub Operator : Type 0
Operator = Text

abbrev pub and_op : Operator
and_op = lit "AND"

abbrev pub eq_op : Operator
eq_op = lit "EQ"

abbrev pub ge_op : Operator
ge_op = lit "GE"

abbrev pub gt_op : Operator
gt_op = lit "GT"

abbrev pub le_op : Operator
le_op = lit "LE"

abbrev pub il_op : Operator
il_op = lit "IL"

abbrev pub has_op : Operator
has_op = lit "HAS"

abbrev pub lk_op : Operator
lk_op = lit "LK"

abbrev pub lt_op : Operator
lt_op = lit "LT"

abbrev pub ne_op : Operator
ne_op = lit "NE"

abbrev pub nl_op : Operator
nl_op = lit "NL"

abbrev pub or_op : Operator
or_op = lit "OR"

unfoldable pub is_array_operator : Operator → Bool
is_array_operator o = text_eq o has_op

unfoldable pub is_comparison_operator : Operator → Bool
is_comparison_operator o =
    text_eq o eq_op
    || (text_eq o ge_op
        || (text_eq o gt_op || (text_eq o le_op || (text_eq o lt_op || text_eq o ne_op))))

unfoldable pub is_pattern_operator : Operator → Bool
is_pattern_operator o = text_eq o il_op || (text_eq o lk_op || text_eq o nl_op)

unfoldable pub is_logical_operator : Operator → Bool
is_logical_operator o = text_eq o and_op || text_eq o or_op

unfoldable pub is_leaf_operator : Operator → Bool
unfolding is_comparison_operator is_pattern_operator is_array_operator
is_leaf_operator o = is_comparison_operator o || (is_pattern_operator o || is_array_operator o)

unfoldable pub query_string : Operator → Text
query_string o =
    if text_eq o eq_op
    then lit "="
    else if text_eq o gt_op
    then lit ">"
    else if text_eq o lt_op
    then lit "<"
    else if text_eq o ge_op
    then lit ">="
    else if text_eq o has_op
    then lit "@>"
    else if text_eq o le_op
    then lit "<="
    else if text_eq o ne_op
    then lit "!="
    else if text_eq o il_op
    then lit "ILIKE"
    else if text_eq o lk_op
    then lit "LIKE"
    else if text_eq o nl_op
    then lit "NOT LIKE"
    else if text_eq o and_op
    then lit "AND"
    else if text_eq o or_op
    then lit "OR"
    else []
