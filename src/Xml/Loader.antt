-- ===== src/Xml/Loader.antt =====
-- src/utils/xml_loader.rs: the tree of elements from the events of the XML reader, which is not code
-- of the repository: its events are a list.
use rbatis.Prelude.{List, [], ◌∷◌, ◌++◌, reverse, if◌then◌else◌, Outcome, ok, panic, ◌>>=◌}
use rbatis.Text.{Str, codes, str_eq, replace, trim}

-- An attribute is its name, as the reader writes it, and its value.
mutual
  -- The tag, the data, the attributes and the childs.
  pub data Element : Type 0 where
    element : Str → Str → List (Str × Str) → Elements → Element

  pub data Elements : Type 0 where
    no_elements : Elements
    elements : Element → Elements → Elements

-- The items of the reader: `Ok` with an event that the loader handles or another, or `Err`.
pub data XmlEvent : Type 0 where
  start_element : Str → List (Str × Str) → XmlEvent
  characters : Str → XmlEvent
  end_element : Str → XmlEvent
  failed : XmlEvent
  ignored : XmlEvent

unfoldable pub find_attr : Str → List (Str × Str) → Str
find_attr arg [] = []
find_attr arg ((name, value) ∷ attributes) =
    if str_eq name arg then value else find_attr arg attributes

unfoldable pub get_attr : Element → Str → Str
get_attr (element tag data_text attributes childs) arg = find_attr arg attributes

unfoldable pub reset : Element → Element
reset _ = element [] [] [] no_elements

unfoldable pub push_element : Elements → Element → Elements
push_element no_elements child = elements child no_elements
push_element (elements first rest) child = elements first (push_element rest child)

unfoldable pub push_child : Element → Element → Element
push_child (element tag data_text attributes childs) child =
    element tag data_text attributes (push_element childs child)

-- The element of a text: without its line ends and outer spaces, after one space.
unfoldable pub text_element : Str → Element
text_element data_text =
    element [] (codes " " ++ trim (replace (replace data_text (codes "\r") []) (codes "\n") [])) []
      no_elements

-- `temp_element`, and `fathers` with its last element in front.
pub record Loading : Type 0 where
  pub temp_element : Element
  pub fathers : List Element

unfoldable pub start : Str → List (Str × Str) → Element → Element
start tag attributes (element _ data_text _ childs) = element tag data_text attributes childs

-- The end of the last father: it becomes a child of the one before it, or stays.
unfoldable pub close : List Element → Outcome (List Element)
close [] = panic
close (last ∷ []) = ok (last ∷ [])
close (last ∷ father ∷ fathers) = ok (push_child father last ∷ fathers)

unfoldable pub add_text : Str → List Element → Outcome (List Element)
add_text data_text [] = panic
add_text data_text (last ∷ fathers) = ok (push_child last (text_element data_text) ∷ fathers)

-- The loop of `parser_func`; an error of the reader ends it.
unfoldable pub parser_events : List XmlEvent → Loading → Outcome (List Element)
parser_events [] st = ok (reverse st.fathers)
parser_events (start_element tag attributes ∷ events) st =
    let temp_element = start tag attributes st.temp_element in
    parser_events events
      (record { temp_element = temp_element; fathers = temp_element ∷ st.fathers })
parser_events (characters data_text ∷ events) st = do
  fathers ← add_text data_text st.fathers
  parser_events events (record st { fathers = fathers })
parser_events (end_element name ∷ events) st = do
  fathers ← close st.fathers
  parser_events events (record { temp_element = reset st.temp_element; fathers = fathers })
parser_events (failed ∷ events) st = ok (reverse st.fathers)
parser_events (ignored ∷ events) st = parser_events events st

unfoldable pub parser_func : List XmlEvent → Outcome (List Element)
parser_func events =
    parser_events events (record { temp_element = element [] [] [] no_elements; fathers = [] })
