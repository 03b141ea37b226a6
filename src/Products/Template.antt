-- ===== src/Products/Template.antt =====
-- src/excel_auditor/product_workflow/fixed_template.py: the table of the fixed fields.
use excelflow.Prelude.{
  Bool, true, false, ◌&&◌, List, [], ◌∷◌, Option, none, some, String, str_eq, any_by,
}

pub data ValueType : Type 0 where
  text boolean decimal datetime : ValueType

pub record FixedField : Type 0 where
  pub field_id : String
  pub title : String
  pub aliases : List String
  pub group : Option String
  pub value_type : ValueType

abbrev fixed_field : String → String → List String → Option String → ValueType → FixedField
fixed_field field_id title aliases group value_type = record {
  field_id = field_id;
  title = title;
  aliases = aliases;
  group = group;
  value_type = value_type;
}

unfoldable pub fixed_fields : List FixedField
fixed_fields =
    fixed_field "product_category" "商品分类" [] none text
    ∷ fixed_field "is_bundle" "是否组合商品" ("是否组合" ∷ "组合商品" ∷ []) none boolean
    ∷ fixed_field "product_name" "商品名称" ("产品名称" ∷ "品名" ∷ "名称" ∷ []) none text
    ∷ fixed_field "sales_unit" "销售单位" ("计价单位" ∷ "基本单位" ∷ "单位" ∷ []) none text
    ∷ fixed_field "quantity_mode" "数量取值" ("数量方式" ∷ "数量取值方式" ∷ []) none text
    ∷ fixed_field "brand" "商品品牌" ("产品品牌" ∷ "品牌" ∷ []) none text
    ∷ fixed_field "main_image" "商品主图" ("主图" ∷ "商品图片" ∷ "元素(图片)" ∷ "元素（图片）" ∷ []) none text
    ∷ fixed_field "detail_images" "商品详情图" ("详情图" ∷ "详情图片" ∷ "商品详情图片" ∷ []) none text
    ∷ fixed_field "sku" "货号" ("产品型号" ∷ "商品型号" ∷ "型号" ∷ "商品货号" ∷ "内部货号" ∷ []) none text
    ∷ fixed_field "spec_image" "规格图片" ("规格图" ∷ "SKU图片" ∷ "sku图片" ∷ []) none text
    ∷ fixed_field "market_price" "市场价" ("市场价线上价4" ∷ "市场价线上价" ∷ "市场价格" ∷ []) none decimal
    ∷ fixed_field "sale_price" "销售价" ("建议平台卖价" ∷ "平台卖价" ∷ "售价" ∷ "价格" ∷ []) none decimal
    ∷ fixed_field "stock" "库存" ("库存量" ∷ "可售库存" ∷ []) none decimal
    ∷ fixed_field "handling_fee_template" "搬运费模板" ("搬运模板" ∷ []) none text
    ∷ fixed_field "package_quantity" "数值" ("包装量数值" ∷ "包装数值" ∷ []) (some "包装量") decimal
    ∷ fixed_field "package_unit" "单位" ("包装量单位" ∷ "包装单位" ∷ []) (some "包装量") text
    ∷ fixed_field "return_days" "退货天数" ("退换货天数" ∷ []) (some "服务保障") decimal
    ∷ fixed_field "service_description" "服务说明" ("服务保障说明" ∷ []) (some "服务保障") text
    ∷ fixed_field "warranty_days" "质保天数" ("保修天数" ∷ "质保期" ∷ []) (some "售后保障") decimal
    ∷ fixed_field "after_sales_description" "售后说明" ("售后保障说明" ∷ []) (some "售后保障") text
    ∷ fixed_field "delivery_method" "配送方式" ("物流方式" ∷ []) (some "物流配送") text
    ∷ fixed_field "freight_template" "运费模板" ("物流模板" ∷ []) (some "物流配送") text
    ∷ fixed_field "home_entry_fee_included" "入户费是否包含在商品价格中" ("入户费是否包含" ∷ "入户费包含在商品价格中" ∷ [])
        (some "物流配送") boolean
    ∷ fixed_field "other_description" "其他说明" ("其他情况备注" ∷ "其他备注" ∷ "备注" ∷ []) (some "物流配送") text
    ∷ fixed_field "listed_at" "上架时间" ("上架日期" ∷ []) none datetime
    ∷ []

abbrev same_type : ValueType → ValueType → Bool
same_type text text = true
same_type boolean boolean = true
same_type decimal decimal = true
same_type datetime datetime = true
same_type _ _ = false

-- `NUMERIC_FIELDS`, `BOOLEAN_FIELDS` and `DATE_FIELDS`: the ids of the fields of a type
unfoldable pub has_type : ValueType → String → Bool
unfolding fixed_fields
has_type type id = any_by (λ f. str_eq f.field_id id && same_type f.value_type type) fixed_fields
